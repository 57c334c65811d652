-- ===== src/Controller/InstanceAction/Effects/Works.antt =====
-- What the work for one node of the plan has done when it returns without an error.
use akri.Base.{
  String, Option, none, some, ◌∷◌, ok, err, bind_result, ◌≡◌, refl, Elem, Option-cases, inl, inr,
  ◌⊎◌,
}
use akri.Base.Loops.{Keeps}
use akri.Kube.Types.{Pod, PodSpec, KubeAkriInstance, KubeAkriConfig}
use akri.Kube.Api.{
  Event, Trace, KubeInterface, Done, created_pod, removed_pod, metric_inc, metric_dec, emit,
}
use akri.Kube.Pods.{create_new_pod_from_spec}
use akri.Controller.InstanceAction.{PodContext, handle_deletion_work, handle_addition_work}
use akri.Controller.InstanceAction.Effects.Follows.{pod_name}

module _ (inst : KubeAkriInstance) where
  -- The Pod of a host in a namespace was removed.
  abbrev pub RemovedOn : Option String → Option String → Trace → Type 0
  RemovedOn node_name namespace t =
      (host : String) × (ns : String) × (node_name ≡ some host)
      × (namespace ≡ some ns)
      × Elem (removed_pod (pod_name inst host) ns (ok tt)) t

  -- The Pod that the entry names was removed.
  abbrev pub IsRemoved : String × PodContext → Trace → Type 0
  IsRemoved e = RemovedOn e.1.node_name e.1.namespace

  abbrev pub ServedBy : Option PodSpec → String → String → Trace → Type 0
  ServedBy broker_pod_spec ns node t =
      (broker_pod_spec ≡ none)
      ⊎ ((pod : Pod) × (pod.metadata.name ≡ some (pod_name inst node))
          × Elem (created_pod pod ns (ok tt)) t)

  -- A Pod for the node was created, if the Configuration asks for broker Pods.
  abbrev pub IsServed : KubeAkriConfig → String → String → Trace → Type 0
  IsServed config = ServedBy config.spec.broker_pod_spec

  module _ (kube : KubeInterface) (P : Trace → Type 0)
      (more : (e : Event) (t : Trace) → P t → P (e ∷ t)) where
    pub deletion-Keeps :
        (node : String) (ctx : PodContext)
        → Keeps P (
            handle_deletion_work kube inst.metadata.name inst.spec.configuration_name
              inst.spec.shared node ctx)
    unfolding handle_deletion_work
    deletion-Keeps node ctx t h = elim (Option-cases ctx.node_name) [
      | inl e ↦ simp e h
      | inr (host, e) ↦ elim (Option-cases ctx.namespace) [
        | inl f ↦ simp (e, f) h
        | inr (ns, f) ↦ simp (e, f) (removed host ns (kube.remove_pod t (pod_name inst host) ns))
      ]
    ]
      where
        removed :
            (host ns : String) (r : Done)
            → P
                (bind_result {S = Trace} {B = Unit {0}}
                  (r, removed_pod (pod_name inst host) ns r ∷ t)
                  (λ _. emit (metric_dec inst.spec.configuration_name host))).1
        removed host ns (ok u) = more _ _ (more _ _ h)
        removed host ns (err x) = more _ _ h

    pub addition-Keeps :
        (uid ns node : String) (config : KubeAkriConfig)
        → Keeps P (
            handle_addition_work kube inst.metadata.name uid ns inst.spec.configuration_name
              inst.spec.shared node config)
    unfolding handle_addition_work create_new_pod_from_spec
    addition-Keeps uid ns node config t h = elim (Option-cases config.spec.broker_pod_spec) [
      | inl e ↦ simp (e, handle_addition_work) h
      | inr (spec, e) ↦ simp (e, handle_addition_work) (created _ (kube.create_pod t _ ns))
    ]
      where
        created :
            (pod : Pod) (r : Done)
            → P
                (bind_result {S = Trace} {B = Unit {0}}
                  (r, created_pod pod ns r ∷ t)
                  (λ _. emit (metric_inc inst.spec.configuration_name node))).1
        created pod (ok u) = more _ _ (more _ _ h)
        created pod (err x) = more _ _ h

  module _ (kube : KubeInterface) where
    pub deletion-IsRemoved :
        (e : String × PodContext) (t : Trace)
        → (handle_deletion_work kube inst.metadata.name inst.spec.configuration_name
            inst.spec.shared e.0 e.1 t).0
          ≡ ok tt
        → IsRemoved e
            (handle_deletion_work kube inst.metadata.name inst.spec.configuration_name
              inst.spec.shared e.0 e.1 t).1
    unfolding handle_deletion_work
    deletion-IsRemoved e t = elim (Option-cases e.1.node_name) [
      | inl q ↦ simp q (λ h. cc)
      | inr (host, q) ↦ elim (Option-cases e.1.namespace) [
        | inl f ↦ simp (q, f) (λ h. cc)
        | inr (ns, f) ↦ simp (q, f) (removed host ns (kube.remove_pod t (pod_name inst host) ns))
      ]
    ]
      where
        removed :
            (host ns : String) (r : Done)
            → (bind_result {S = Trace} {B = Unit {0}}
                (r, removed_pod (pod_name inst host) ns r ∷ t)
                (λ _. emit (metric_dec inst.spec.configuration_name host))).0
              ≡ ok tt
            → RemovedOn
                (some host)
                (some ns)
                (bind_result {S = Trace} {B = Unit {0}}
                  (r, removed_pod (pod_name inst host) ns r ∷ t)
                  (λ _. emit (metric_dec inst.spec.configuration_name host))).1
        removed host ns (ok u) h = (host, ns, refl, refl, inr (inl refl))
        removed host ns (err x) h = cc

    pub addition-IsServed :
        (uid ns node : String) (config : KubeAkriConfig) (t : Trace)
        → (handle_addition_work kube inst.metadata.name uid ns inst.spec.configuration_name
            inst.spec.shared node config t).0
          ≡ ok tt
        → IsServed config ns node
            (handle_addition_work kube inst.metadata.name uid ns inst.spec.configuration_name
              inst.spec.shared node config t).1
    unfolding handle_addition_work create_new_pod_from_spec
    addition-IsServed uid ns node config t = elim (Option-cases config.spec.broker_pod_spec) [
      | inl e ↦ λ h. inl e
      | inr (spec, e) ↦
          simp (e, handle_addition_work) (created spec _ refl (kube.create_pod t _ ns))
    ]
      where
        created :
            (spec : PodSpec) (pod : Pod)
            → pod.metadata.name ≡ some (pod_name inst node)
            → (r : Done)
            → (bind_result {S = Trace} {B = Unit {0}}
                (r, created_pod pod ns r ∷ t)
                (λ _. emit (metric_inc inst.spec.configuration_name node))).0
              ≡ ok tt
            → ServedBy
                (some spec)
                ns
                node
                (bind_result {S = Trace} {B = Unit {0}}
                  (r, created_pod pod ns r ∷ t)
                  (λ _. emit (metric_inc inst.spec.configuration_name node))).1
        created spec pod p (ok u) h = inr (pod, p, inr (inl refl))
        created spec pod p (err x) h = cc
