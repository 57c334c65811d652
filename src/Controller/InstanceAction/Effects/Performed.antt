-- ===== src/Controller/InstanceAction/Effects/Performed.antt =====
-- What `handle_instance_change` has done when it returns without an error.
use mathlib.Core.Path.{subst}
use akri.Base.{
  String, Option, some, List, [], ◌∷◌, Result, ok, err, ◌≡◌, refl, sym, ap, ◌∙◌, All, Elem, select,
  inl, inr, ◌⊎◌, All-map,
}
use akri.Base.HashMap.{HashMap}
use akri.Base.Loops.{Keeps-for_each, bind-eq-ok, for_each-All}
use akri.Kube.Types.{ℤ, Time, PodObject, KubeAkriInstance, KubeAkriConfig}
use akri.Kube.Api.{Event, Trace, KubeInterface, found_configuration}
use akri.Controller.PodAction.{InstanceAction}
use akri.Controller.InstanceAction.{
  PodContext, handle_deletions, handle_additions, add_pods, handle_instance_change, removes,
  nodes_to_add,
}
use akri.Controller.InstanceAction.Walk.{additions_keep}
use akri.Controller.InstanceAction.Entries.{plan}
use akri.Controller.InstanceAction.Plan.{clock_reads}
use akri.Controller.InstanceAction.Effects.Follows.{selector_of, seen, listed, change_lem}
use akri.Controller.InstanceAction.Effects.Works.{
  IsRemoved, IsServed, deletion-Keeps, addition-Keeps, deletion-IsRemoved, addition-IsServed,
}

module _ (inst : KubeAkriInstance) (kube : KubeInterface) where
  -- The nodes have their Pods, if the Configuration was found.
  abbrev pub FollowsFound : String → List String → Trace → Result KubeAkriConfig → Type 0
  FollowsFound ns nodes t (err e) = Unit
  FollowsFound ns nodes t (ok config) = All (λ node. IsServed inst config ns node t) nodes

  abbrev pub AreServed : String → List String → Trace → Type 0
  AreServed ns nodes t =
      (nodes ≡ [])
      ⊎ ((found : Result KubeAkriConfig) × Elem
            (found_configuration inst.spec.configuration_name ns found) t
          × FollowsFound ns nodes t found)

  IsServed-cons :
      (config : KubeAkriConfig) (ns node : String) (e : Event) (t : Trace)
      → IsServed inst config ns node t
      → IsServed inst config ns node (e ∷ t)
  IsServed-cons config ns node e t (inl none_asked) = inl none_asked
  IsServed-cons config ns node e t (inr (pod, q, there)) = inr (pod, q, inr there)

  add_pods-AreServed :
      (uid ns : String) (nodes : List String) (r : Result KubeAkriConfig) (t : Trace)
      → Elem (found_configuration inst.spec.configuration_name ns r) t
      → (add_pods kube inst uid ns nodes r t).0 ≡ ok tt
      → AreServed ns nodes (add_pods kube inst uid ns nodes r t).1
  unfolding add_pods
  add_pods-AreServed uid ns nodes (err e) t i h = inr (err e, i, tt)
  add_pods-AreServed uid ns nodes (ok config) t i h = inr (
    ok config,
    Keeps-for_each (Elem (found_configuration inst.spec.configuration_name ns (ok config))) _ nodes
        (λ node. addition-Keeps inst kube _ (λ e t. inr) uid ns node config) t i,
    for_each-All (IsServed inst config ns) _
        (λ node. addition-IsServed inst kube uid ns node config)
        (λ node other.
          addition-Keeps inst kube (IsServed inst config ns node) (IsServed-cons config ns node) uid
            ns other config)
        nodes t h,
  )

  additions-AreServed :
      (uid ns : String) (nodes : List String) (t : Trace)
      → (handle_additions kube inst uid ns nodes t).0 ≡ ok tt
      → AreServed ns nodes (handle_additions kube inst uid ns nodes t).1
  unfolding handle_additions
  additions-AreServed uid ns [] t h = inl refl
  additions-AreServed uid ns (n ∷ nodes) t h =
      add_pods-AreServed uid ns (n ∷ nodes) _ _ (inl refl) h

  IsRemoved-cons :
      (e : String × PodContext) (ev : Event) (t : Trace)
      → IsRemoved inst e t
      → IsRemoved inst e (ev ∷ t)
  IsRemoved-cons e ev t (host, ns, q, f, there) = (host, ns, q, f, inr there)

  deletions-AreRemoved :
      (nodes : HashMap PodContext) (t : Trace)
      → (handle_deletions kube inst nodes t).0 ≡ ok tt
      → All
          (λ e. IsRemoved inst e (handle_deletions kube inst nodes t).1)
          (select (λ e. removes e.1.action) nodes)
  unfolding handle_deletions
  deletions-AreRemoved nodes =
      for_each-All (IsRemoved inst) _ (deletion-IsRemoved inst kube)
        (λ e f. deletion-Keeps inst kube (IsRemoved inst e) (IsRemoved-cons e) f.0 f.1)
        (select (λ e. removes e.1.action) nodes)

  -- A call without an error for an Instance with a namespace and a uid, whose Pods are found, has removed
  -- each Pod that its plan removes, and created a Pod on each node that its plan adds, unless the
  -- Configuration was not found or asks for no broker Pods.
  pub handle_instance_change-Performs :
      (checked_add_minutes : Time → ℤ → Option Time) (action : InstanceAction) (ns uid : String)
      (pods : List PodObject) (t : Trace)
      → inst.metadata.namespace ≡ some ns
      → inst.metadata.uid ≡ some uid
      → kube.find_pods_with_label t (selector_of inst) ≡ ok pods
      → (handle_instance_change checked_add_minutes kube inst action t).0 ≡ ok tt
      → All
          (λ e. IsRemoved inst e (handle_instance_change checked_add_minutes kube inst action t).1)
          (select
            (λ e. removes e.1.action)
            (plan checked_add_minutes action inst.spec.nodes (seen kube inst t pods)))
        × AreServed ns
            (nodes_to_add (plan checked_add_minutes action inst.spec.nodes (seen kube inst t pods)))
            (handle_instance_change checked_add_minutes kube inst action t).1
  handle_instance_change-Performs cam action ns uid pods t a b c o =
      let p = plan cam action inst.spec.nodes (seen kube inst t pods) in
      let start = clock_reads kube pods (listed inst t pods) in
      let same = change_lem cam kube inst action t ns uid pods a b c in
      let (u, removed, next) =
        bind-eq-ok (handle_deletions kube inst p start)
          (λ _. handle_additions kube inst uid ns (nodes_to_add p))
          (ap (λ r. r.0) (sym same) ∙ o) in
      let w = (handle_deletions kube inst p start).1 in
      let whole = same ∙ next in
      subst
        (λ r.
          All (λ e. IsRemoved inst e r.1) (select (λ e. removes e.1.action) p)
          × AreServed ns (nodes_to_add p) r.1)
        (sym whole)
        (
          All-map
              (λ e.
                additions_keep cam kube inst action (IsRemoved inst e)
                  (λ sel r t. IsRemoved-cons e _ t) (λ now t. IsRemoved-cons e _ t)
                  (λ n m r t. IsRemoved-cons e _ t)
                  (deletion-Keeps inst kube (IsRemoved inst e) (IsRemoved-cons e))
                  (addition-Keeps inst kube (IsRemoved inst e) (IsRemoved-cons e)) uid ns
                  (nodes_to_add p) w)
              (select (λ e. removes e.1.action) p) (deletions-AreRemoved p start removed),
          additions-AreServed uid ns (nodes_to_add p) w (ap (λ r. r.0) (sym whole) ∙ o),
        )
