-- ===== src/Controller/InstanceAction/Walk.antt =====
-- The rule for `handle_instance_change`: what its calls keep, it keeps.
use akri.Base.{String, Option, List, [], ◌∷◌, Result, ok, err, ok_or, lift, attempt, select}
use akri.Base.HashMap.{HashMap}
use akri.Base.Loops.{Keeps, Keeps-bind, Keeps-for_each}
use akri.Kube.Types.{ℤ, Time, PodObject, KubeAkriInstance, KubeAkriConfig}
use akri.Kube.Api.{
  Trace, KubeInterface, find_pods_with_label, find_configuration, found_pods_with_label, read_clock,
  found_configuration,
}
use akri.Controller.PodAction.{InstanceAction}
use akri.Controller.InstanceAction.{
  PodContext, handle_deletion_work, handle_addition_work, handle_deletions, handle_additions,
  add_pods, determine_actions, determine_action_for_pod, handle_instance_change, removes,
  nodes_to_add,
}

module _ (checked_add_minutes : Time → ℤ → Option Time) (kube : KubeInterface)
    (inst : KubeAkriInstance) (action : InstanceAction) (P : Trace → Type 0)
    (kept_list : (sel : String) (r : Result (List PodObject)) (t : Trace)
      → P t
      → P (found_pods_with_label sel r ∷ t))
    (kept_clock : (now : Time) (t : Trace) → P t → P (read_clock now ∷ t))
    (kept_find : (name ns : String) (r : Result KubeAkriConfig) (t : Trace)
      → P t
      → P (found_configuration name ns r ∷ t))
    (kept_deletion : (node : String) (ctx : PodContext)
      → Keeps P (
          handle_deletion_work kube inst.metadata.name inst.spec.configuration_name inst.spec.shared
            node ctx))
    (kept_addition : (uid ns node : String) (c : KubeAkriConfig)
      → Keeps P (
          handle_addition_work kube inst.metadata.name uid ns inst.spec.configuration_name
            inst.spec.shared node c)) where
  deletions_keep : (nodes : HashMap PodContext) → Keeps P (handle_deletions kube inst nodes)
  unfolding handle_deletions
  deletions_keep nodes =
      Keeps-for_each P _ (select (λ e. removes e.1.action) nodes) (λ e. kept_deletion e.0 e.1)

  add_pods-Keeps :
      (uid ns : String) (nodes : List String) (r : Result KubeAkriConfig)
      → Keeps P (add_pods kube inst uid ns nodes r)
  unfolding add_pods
  add_pods-Keeps uid ns nodes (err e) = λ t h. h
  add_pods-Keeps uid ns nodes (ok config) =
      Keeps-for_each P _ nodes (λ node. kept_addition uid ns node config)

  pub additions_keep :
      (uid ns : String) (nodes : List String) → Keeps P (handle_additions kube inst uid ns nodes)
  unfolding handle_additions
  additions_keep uid ns [] = λ t h. h
  additions_keep uid ns (n ∷ nodes) =
      Keeps-bind P (attempt (find_configuration kube inst.spec.configuration_name ns))
        (add_pods kube inst uid ns (n ∷ nodes)) (λ t h. kept_find _ _ _ t h)
        (add_pods-Keeps uid ns (n ∷ nodes))

  determine-Keeps :
      (pods : List PodObject) (nodes : HashMap PodContext)
      → Keeps P (determine_actions checked_add_minutes kube action pods nodes)
  unfolding determine_actions
  determine-Keeps [] nodes t h = h
  determine-Keeps (pod ∷ pods) nodes t h =
      let now = kube.utc_now t in
      determine-Keeps pods (determine_action_for_pod checked_add_minutes now pod action nodes)
        (read_clock now ∷ t) (kept_clock now t h)

  pub change-Keeps : Keeps P (handle_instance_change checked_add_minutes kube inst action)
  unfolding handle_instance_change
  change-Keeps =
      Keeps-bind P (lift (ok_or inst.metadata.namespace _)) _ (λ t h. h)
        λ ns.
          Keeps-bind P (lift (ok_or inst.metadata.uid _)) _ (λ t h. h)
            λ uid.
              Keeps-bind P (find_pods_with_label kube _) _ (λ t h. kept_list _ _ t h)
                λ pods.
                  Keeps-bind P (determine_actions checked_add_minutes kube action pods _) _
                    (determine-Keeps pods _)
                    λ nodes.
                      Keeps-bind P (handle_deletions kube inst nodes) _ (deletions_keep nodes)
                        λ _. additions_keep uid ns (nodes_to_add nodes)
