-- ===== src/Tests/PodRuns.antt =====
-- Runs of `select_pod_action` and of `handle_instance_change`.
use akri.Base.{
  false, select, some, none, Option, List, [], ◌∷◌, ok, ◌≡◌, refl, All, ◌↔◌, ◌+◌, eq_iff, sym,
}
use akri.Base.HashMap.{HashMap, get, contains_key}
use akri.Kube.Types.{ℤ, pos, negsuc, Time, PodObject}
use akri.Kube.Api.{KubeInterface}
use akri.Controller.PodAction.{InstanceAction, PodAction, PodActionInfo, select_pod_action}
use akri.Controller.PodAction.Choice.{Chooses, select_pod_action_iff}
use akri.Controller.InstanceAction.{PodContext, handle_instance_change, removes, nodes_to_add}
use akri.Controller.InstanceAction.Entries.{plan}
use akri.Controller.InstanceAction.Effects.Works.{IsRemoved}
use akri.Controller.InstanceAction.Effects.Performed.{AreServed, handle_instance_change-Performs}
use akri.Controller.InstanceAction.Plan.{Reading, observe, HasDistinctNodes, readings}
use akri.Controller.InstanceAction.Effects.Gauge.{IsGauged, handle_instance_change-IsGauged}
use akri.Controller.InstanceAction.Effects.Follows.{seen}
use akri.Controller.InstanceAction.Effects.Justify.{IsJustified, handle_instance_change-IsJustified}
use akri.Tests.Fixtures.{camera, cluster, broker_on}

-- Times in minutes, without an overflow.
abbrev pub add_minutes : Time → ℤ → Option Time
add_minutes t (pos n) = some (t + n)
add_minutes t (negsuc n) = none

abbrev pending_pod : PodActionInfo
pending_pod = record {
  pending_grace_time_in_minutes = pos 5;
  ended_grace_time_in_minutes = pos 0;
  phase = "Pending";
  instance_action = InstanceAction.update;
  status_start_time = some 10;
  unknown_node = false;
  trace_node_name = "cam-pod";
}

select_pod_action_iff_example :
    (select_pod_action add_minutes pending_pod 16 ≡ ok PodAction.remove_and_add)
    ↔ Chooses add_minutes pending_pod 16 (ok PodAction.remove_and_add)
select_pod_action_iff_example =
    select_pod_action_iff add_minutes pending_pod 16 (ok PodAction.remove_and_add)

expired_pod : select_pod_action add_minutes pending_pod 16 ≡ ok PodAction.remove_and_add
unfolding select_pod_action
expired_pod = refl

pod_in_grace : select_pod_action add_minutes pending_pod 14 ≡ ok PodAction.no_action
unfolding select_pod_action
pod_in_grace = refl

abbrev pods : List PodObject
pods = broker_on "node-a" "Failed" ∷ broker_on "node-x" "Running" ∷ []

-- The cluster with two broker Pods, the second on a node that the Instance does not list.
abbrev busy : KubeInterface
busy = record cluster { find_pods_with_label = λ t sel. ok pods }

distinct : HasDistinctNodes (seen busy camera [] pods)
unfolding observe readings get
distinct = (λ n h. let e = (eq_iff "node-a" n).0 h in rw (sym e) refl, (λ n h. refl, tt))

-- The second of two Pods, alone.
abbrev one_reading : List Reading
one_reading = (broker_on "node-a" "Failed", 100) ∷ []

lone : HasDistinctNodes one_reading
lone = (λ n h. refl, tt)

abbrev no_action_plan : HashMap PodContext
no_action_plan =
    ("node-a", record { node_name = none; namespace = none; action = PodAction.add }) ∷ []

handle_instance_change-IsGauged_example :
    IsGauged (handle_instance_change add_minutes busy camera InstanceAction.update []).1
handle_instance_change-IsGauged_example =
    handle_instance_change-IsGauged add_minutes busy camera InstanceAction.update []
      (record { raised = refl; lowered = refl })

handle_instance_change-IsJustified_example :
    All
      (IsJustified camera camera.spec.nodes
        (seen busy camera [] pods)
        add_minutes
        InstanceAction.update)
      (handle_instance_change add_minutes busy camera InstanceAction.update []).1
handle_instance_change-IsJustified_example =
    handle_instance_change-IsJustified add_minutes busy camera InstanceAction.update "default"
      "uid-1" pods refl refl refl distinct

handle_instance_change-Performs_example :
    All
      (λ e.
        IsRemoved camera e
          (handle_instance_change add_minutes busy camera InstanceAction.update []).1)
      (select
        (λ e. removes e.1.action)
        (plan add_minutes InstanceAction.update camera.spec.nodes (seen busy camera [] pods)))
    × AreServed camera busy "default"
        (nodes_to_add
          (plan add_minutes InstanceAction.update camera.spec.nodes (seen busy camera [] pods)))
        (handle_instance_change add_minutes busy camera InstanceAction.update []).1
unfolding handle_instance_change akri.Controller.InstanceAction.determine_actions
    akri.Controller.InstanceAction.handle_deletions akri.Base.for_each
    akri.Controller.InstanceAction.determine_action_for_pod get select_pod_action contains_key
    akri.Controller.InstanceAction.collect_nodes akri.Base.HashMap.insert
    akri.Controller.InstanceAction.handle_deletion_work
    akri.Controller.InstanceAction.handle_additions akri.Controller.InstanceAction.add_pods
    akri.Controller.InstanceAction.handle_addition_work akri.Kube.Pods.create_new_pod_from_spec
handle_instance_change-Performs_example =
    handle_instance_change-Performs camera busy add_minutes InstanceAction.update "default" "uid-1"
      pods [] refl refl refl refl
