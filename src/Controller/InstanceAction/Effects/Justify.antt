-- ===== src/Controller/InstanceAction/Effects/Justify.antt =====
-- Which Pods `handle_instance_change` removes and creates.
use mathlib.Core.Path.{subst}
use akri.Base.{String, true, Option, some, List, [], ok, ◌≡◌, sym, ◌∙◌, ap, arith, All, All-map}
use akri.Base.HashMap.{Entries-self}
use akri.Base.Loops.{bind_inv}
use akri.Kube.Types.{ℤ, Time, PodObject, KubeAkriInstance}
use akri.Kube.Api.{Event, KubeInterface, created_pod, removed_pod}
use akri.Controller.PodAction.{InstanceAction, PodAction}
use akri.Controller.InstanceAction.{
  handle_deletions, handle_additions, handle_instance_change, removes, nodes_to_add,
}
use akri.Controller.InstanceAction.Entries.{
  is_listed, Served, Wanted, plan, removes-Served, adds-Wanted, plan_unique,
}
use akri.Controller.InstanceAction.Plan.{Reading, HasDistinctNodes, clock_reads}
use akri.Controller.InstanceAction.Effects.Follows.{
  selector_of, seen, listed, change_lem, pod_name, FollowsPlan, deletions-FollowsPlan,
  additions-FollowsPlan, clock_reads-FollowsPlan, nodes_to_add-IsAdded,
}

module _ (inst : KubeAkriInstance) (nodes : List String) (rs : List Reading)
    (checked_add_minutes : Time → ℤ → Option Time) (action : InstanceAction) where
  -- A removed Pod has the name of the Pod that is to serve a node and was to be removed or replaced;
  -- a created Pod is for a node that the Instance lists, where no Pod served it, or the one that did
  -- was to be replaced, or the choice for it failed, the last or the first only if the Instance stays.
  abbrev pub IsJustified : Event → Type 0
  IsJustified (removed_pod name ns r) =
      (node : String) × (a : PodAction) × (removes a ≡ true)
      × Served checked_add_minutes action nodes rs node (ok a)
      × (name ≡ pod_name inst node)
  IsJustified (created_pod pod ns r) =
      (node : String) × (is_listed node nodes ≡ true)
      × Wanted checked_add_minutes action nodes rs node
      × (inst.metadata.namespace ≡ some ns)
      × (pod.metadata.name ≡ some (pod_name inst node))
  IsJustified _ = Unit

  justify :
      HasDistinctNodes rs
      → (e : Event) → FollowsPlan inst (plan checked_add_minutes action nodes rs) e
      → IsJustified e
  justify d (removed_pod name ns r) (node, ctx, host, g, a, e, f, q) =
      let (s, h) = removes-Served checked_add_minutes action nodes rs node ctx d g a in
      let same : host ≡ node = ground arith in (node, ctx.action, a, s, q ∙ ap (pod_name inst) same)
  justify d (created_pod pod ns r) (node, ctx, g, a, n, q) =
      let (l, w) = adds-Wanted checked_add_minutes action nodes rs node ctx d g a in
      (node, l, w, n, q)
  justify d _ h = tt

-- A call for an Instance with a namespace and a uid, whose Pods are found and are to serve distinct
-- nodes, makes no removal and no creation but those that the choices for these Pods ask for, whatever
-- the cluster answers to its calls.
pub handle_instance_change-IsJustified :
    (checked_add_minutes : Time → ℤ → Option Time) (kube : KubeInterface) (inst : KubeAkriInstance)
    (action : InstanceAction) (ns uid : String) (pods : List PodObject)
    → inst.metadata.namespace ≡ some ns
    → inst.metadata.uid ≡ some uid
    → kube.find_pods_with_label [] (selector_of inst) ≡ ok pods
    → HasDistinctNodes (seen kube inst [] pods)
    → All
        (IsJustified inst inst.spec.nodes (seen kube inst [] pods) checked_add_minutes action)
        (handle_instance_change checked_add_minutes kube inst action []).1
handle_instance_change-IsJustified cam kube inst action ns uid pods a b c d =
    let rs = seen kube inst [] pods in
    let p = plan cam action inst.spec.nodes rs in
    let unique = plan_unique cam action inst.spec.nodes rs in
    let start : All (FollowsPlan inst p) (clock_reads kube pods (listed inst [] pods)) =
      clock_reads-FollowsPlan inst p kube pods _ (tt, tt) in
    let done =
      bind_inv (All (FollowsPlan inst p)) (handle_deletions kube inst p _)
        (λ _. handle_additions kube inst uid ns (nodes_to_add p))
        (deletions-FollowsPlan inst p kube _ unique start)
        (λ _.
          additions-FollowsPlan inst p kube uid ns (nodes_to_add p) _
            (nodes_to_add-IsAdded inst p kube p (Entries-self p unique)) a
            (deletions-FollowsPlan inst p kube _ unique start)) in
    All-map (justify inst inst.spec.nodes rs cam action d) _ (
      subst (λ r. All (FollowsPlan inst p) r.1)
        (sym (change_lem cam kube inst action [] ns uid pods a b c)) done)
