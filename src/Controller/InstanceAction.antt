-- ===== src/Controller/InstanceAction.antt =====
-- controller/src/util/instance_action.rs: the broker Pods that an Instance event adds and removes.
-- The log lines are left out. `nodes_to_act_on` is a map from a node to what is done there.
pub mod Plan
pub mod Entries
pub mod Walk
pub mod Effects
use akri.Base.{
  String, Bool, true, false, Option, none, some, List, [], ◌∷◌, map, Result, ok, err, ok_or, M,
  ◌>>=◌, ◌>>◌, pure, lift, attempt, for_each, select, not, ◌||◌,
}
use akri.Base.HashMap.{HashMap, get, insert, contains_key}
use akri.Kube.Types.{ℤ, pos, Time, PodObject, KubeAkriInstance, KubeAkriConfig, WatchEvent}
use akri.Kube.Api.{
  Trace, metric_inc, metric_dec, KubeInterface, emit, find_pods_with_label, create_pod, remove_pod,
  find_configuration, utc_now,
}
use akri.Kube.Pods.{
  ◌<>◌, akri_prefix, akri_instance_label_name, akri_target_node_label_name, OwnershipType,
  create_pod_app_name, create_new_pod_from_spec,
}
use akri.Controller.PodAction.{InstanceAction, PodAction, PodActionInfo, select_pod_action}

abbrev pub pending_pod_grace_period_minutes : ℤ
pending_pod_grace_period_minutes = pos 5

abbrev pub failed_pod_grace_period_minutes : ℤ
failed_pod_grace_period_minutes = pos 0

pub record PodContext : Type 0 where
  pub node_name : Option String
  pub namespace : Option String
  pub action : PodAction

abbrev default_action : InstanceAction → PodAction
default_action InstanceAction.remove = PodAction.no_action
default_action _ = PodAction.add

-- The initial value of `nodes_to_act_on`.
unfoldable pub collect_nodes : PodAction → List String → HashMap PodContext → HashMap PodContext
collect_nodes default [] m = m
collect_nodes default (node ∷ nodes) m =
    collect_nodes default nodes
      (insert node (record { node_name = none; namespace = none; action = default }) m)

abbrev pub removes : PodAction → Bool
removes PodAction.remove = true
removes PodAction.remove_and_add = true
removes _ = false

abbrev pub adds : PodAction → Bool
adds PodAction.add = true
adds PodAction.remove_and_add = true
adds _ = false

abbrev pub nodes_to_add : HashMap PodContext → List String
nodes_to_add m = map (λ e. e.0) (select (λ e. adds e.1.action) m)

-- The facts that decide on a Pod which has a phase and both labels.
abbrev pub pod_action_info :
    InstanceAction → PodObject → String → Option Time → Bool → PodActionInfo
pod_action_info action pod phase start_time unknown_node = record {
  pending_grace_time_in_minutes = pending_pod_grace_period_minutes;
  ended_grace_time_in_minutes = failed_pod_grace_period_minutes;
  phase = phase;
  instance_action = action;
  status_start_time = start_time;
  unknown_node = unknown_node;
  trace_node_name = pod.metadata.name;
}

module _ (kube : KubeInterface) where
  unfoldable pub handle_deletion_work :
      String → String → Bool → String → PodContext → M Trace (Unit {0})
  handle_deletion_work instance_name configuration_name instance_shared node_to_delete_pod context =
      do
        context_node_name ← lift (
            ok_or context.node_name
              ("handle_deletion_work - Context node_name is missing for " <> node_to_delete_pod))
        context_namespace ← lift (
            ok_or context.namespace
              ("handle_deletion_work - Context namespace is missing for " <> node_to_delete_pod))
        remove_pod kube (create_pod_app_name instance_name context_node_name instance_shared "pod")
            context_namespace
        emit (metric_dec configuration_name context_node_name)

  unfoldable pub handle_addition_work :
      String → String → String → String → Bool → String → KubeAkriConfig → M Trace (Unit {0})
  handle_addition_work instance_name instance_uid instance_namespace instance_class_name
        instance_shared new_node instance_configuration =
      elim instance_configuration.spec.broker_pod_spec [
        | none ↦ pure tt
        | some broker_pod_spec ↦ do
          new_pod ← lift (
              create_new_pod_from_spec instance_namespace instance_name instance_class_name
                (record {
                  object_type = OwnershipType.instance;
                  object_uid = instance_uid;
                  object_name = instance_name;
                })
                (akri_prefix <> "/" <> instance_name) new_node instance_shared broker_pod_spec)
          create_pod kube new_pod instance_namespace
          emit (metric_inc instance_class_name new_node)
      ]

  -- The deletions of the plan, and then its additions.
  unfoldable pub handle_deletions : KubeAkriInstance → HashMap PodContext → M Trace (Unit {0})
  handle_deletions inst nodes = for_each (select (λ e. removes e.1.action) nodes) (λ e.
      handle_deletion_work inst.metadata.name inst.spec.configuration_name inst.spec.shared e.0 e.1)

  -- What follows the search for the configuration: where it is missing, nothing is added.
  unfoldable pub add_pods :
      KubeAkriInstance → String → String → List String → Result KubeAkriConfig → M Trace (Unit {0})
  add_pods inst uid namespace nodes (err e) = pure tt
  add_pods inst uid namespace nodes (ok config) = for_each nodes (λ new_node.
      handle_addition_work inst.metadata.name uid namespace inst.spec.configuration_name
        inst.spec.shared new_node config)

  -- The configuration is read only where a Pod is to be added.
  unfoldable pub handle_additions :
      KubeAkriInstance → String → String → List String → M Trace (Unit {0})
  handle_additions inst uid namespace [] = pure tt
  handle_additions inst uid namespace (node ∷ nodes) = do
    found ← attempt (find_configuration kube inst.spec.configuration_name namespace)
    add_pods inst uid namespace (node ∷ nodes) found

module _ (checked_add_minutes : Time → ℤ → Option Time) where
  -- `now` is what `Utc::now()` returns if the choice comes to read it.
  unfoldable pub determine_action_for_pod :
      Time → PodObject → InstanceAction → HashMap PodContext → HashMap PodContext
  determine_action_for_pod now pod action nodes_to_act_on = elim pod.status [
    | none ↦ nodes_to_act_on
    | some status ↦ elim status.phase [
      | none ↦ nodes_to_act_on
      | some pod_phase ↦ elim (get akri_target_node_label_name pod.metadata.labels) [
        | none ↦ nodes_to_act_on
        | some node_to_run_pod_on ↦ elim (get akri_instance_label_name pod.metadata.labels) [
          | none ↦ nodes_to_act_on
          | some _ ↦
              elim (select_pod_action checked_add_minutes
                (pod_action_info action pod pod_phase status.start_time
                  (not (contains_key node_to_run_pod_on nodes_to_act_on)))
                now) [
                  | ok chosen ↦
                      insert node_to_run_pod_on
                        (record {
                          node_name = some node_to_run_pod_on;
                          namespace = pod.metadata.namespace;
                          action = chosen;
                        })
                        nodes_to_act_on
                  | err e ↦ nodes_to_act_on
                ]
        ]
      ]
    ]
  ]

  module _ (kube : KubeInterface) where
    -- The loop over the Pods that were found.
    unfoldable pub determine_actions :
        InstanceAction → List PodObject → HashMap PodContext → M Trace (HashMap PodContext)
    determine_actions action [] nodes = pure nodes
    determine_actions action (pod ∷ pods) nodes = do
      now ← utc_now kube
      determine_actions action pods (determine_action_for_pod now pod action nodes)

    unfoldable pub handle_instance_change : KubeAkriInstance → InstanceAction → M Trace (Unit {0})
    handle_instance_change inst action = do
      namespace ← lift (
          ok_or inst.metadata.namespace
            ("Namespace not found for instance: " <> inst.metadata.name))
      uid ← lift (ok_or inst.metadata.uid ("UID not found for instance: " <> inst.metadata.name))
      pods ← find_pods_with_label kube (akri_instance_label_name <> "=" <> inst.metadata.name)
      nodes ←
          determine_actions action pods (collect_nodes (default_action action) inst.spec.nodes [])
      handle_deletions kube inst nodes
      handle_additions kube inst uid namespace (nodes_to_add nodes)

    unfoldable pub handle_instance : WatchEvent KubeAkriInstance → M Trace (Unit {0})
    handle_instance (WatchEvent.added inst) = handle_instance_change inst InstanceAction.add
    handle_instance (WatchEvent.deleted inst) = handle_instance_change inst InstanceAction.remove
    handle_instance (WatchEvent.modified inst) = handle_instance_change inst InstanceAction.update
    handle_instance (WatchEvent.error e) = pure tt
