-- ===== src/Controller/PodServices/Removals.antt =====
-- The services that `handle_non_running_pod` removes.
use akri.Base.{
  String, Bool, true, false, Option, some, List, [], ◌∷◌, Result, ok, err, M, bind_result, ok_or,
  lift, attempt, nat_eq, eq_iff, ◌≡◌, refl, arith, All, ◌⊎◌, inl, inr, Bool-cases, Option-cases,
}
use akri.Base.Loops.{Keeps, Keeps-bind}
use akri.Kube.Types.{ℤ, Time, PodObject, KubeAkriInstance, KubeAkriConfig}
use akri.Kube.Api.{
  Event, Trace, KubeInterface, emit, find_instance, remove_pod, create_pod, found_pods_with_label,
  removed_service, metric_inc, metric_dec,
}
use akri.Kube.Pods.{create_new_pod_from_spec}
use akri.Kube.Services.{create_service_app_name}
use akri.Controller.PodAction.{InstanceAction}
use akri.Controller.InstanceAction.{PodContext, handle_deletion_work, handle_addition_work}
use akri.Controller.InstanceAction.Walk.{change-Keeps}
use akri.Controller.PodServices.{
  phase_of, is_non_terminating, num_non_terminating_pods, pod_selector, cleanup_svc_if_unsupported,
  find_pods_and_cleanup_svc_if_unsupported, restore_pods, handle_non_running_pod,
  get_instance_and_configuration_from_pod,
}

-- The Pod supports no service: its phase is one of these two.
abbrev pub IsGone : PodObject → Type 0
IsGone pod = (phase_of pod.status ≡ some "Terminating") ⊎ (phase_of pod.status ≡ some "Failed")

-- The name of the service of an Instance or of its Configuration.
abbrev pub svc_name_of : String → String → Bool → String
svc_name_of instance_id configuration_name svc =
    create_service_app_name configuration_name instance_id "svc" svc

module _ (instance_id configuration_name namespace : String) where
  -- A removal is one of the two services, right after a look at its Pods that found gone ones only.
  abbrev pub WasUnsupported : Event → Trace → Type 0
  WasUnsupported (removed_service name ns r) t =
      (svc : Bool) × (pods : List PodObject) × (rest : Trace) × (name
        ≡ svc_name_of instance_id configuration_name svc)
      × (ns ≡ namespace)
      × (t
          ≡ found_pods_with_label (pod_selector instance_id configuration_name svc) (ok pods)
            ∷ rest)
      × All IsGone pods
  WasUnsupported _ t = Unit

  abbrev pub RemovesUnsupported : Trace → Type 0
  RemovesUnsupported [] = Unit
  RemovesUnsupported (e ∷ t) = WasUnsupported e t × RemovesUnsupported t

pub supports-IsGone : (pod : PodObject) → is_non_terminating pod ≡ false → IsGone pod
supports-IsGone pod h = elim (Option-cases (phase_of pod.status)) [
  | inl e ↦ let f = simp e at h in cc
  | inr (phase, e) ↦ ground (arith, eq_iff phase "Terminating", eq_iff phase "Failed")
]

none-IsGone :
    (pods : List PodObject) → nat_eq (num_non_terminating_pods pods) 0 ≡ true → All IsGone pods
none-IsGone [] h = tt
none-IsGone (pod ∷ pods) h = elim (Bool-cases (is_non_terminating pod)) [
  | inl e ↦ let f = simp e at h in ground arith
  | inr e ↦ (supports-IsGone pod e, none-IsGone pods (simp e at h))
]

abbrev pub is_removal : Event → Bool
is_removal (removed_service name ns r) = true
is_removal _ = false

-- The restart of Pods keeps what all events but the removal of a service keep.
module _ (kube : KubeInterface) (P : Trace → Type 0)
    (quiet : (e : Event) (t : Trace) → is_removal e ≡ false → P t → P (e ∷ t)) where
  deletion-Keeps :
      (name config : String) (shared : Bool) (node : String) (ctx : PodContext)
      → Keeps P (handle_deletion_work kube name config shared node ctx)
  unfolding handle_deletion_work
  deletion-Keeps name config shared node ctx =
      Keeps-bind P (lift (ok_or ctx.node_name _)) _ (λ t h. h)
        λ host.
          Keeps-bind P (lift (ok_or ctx.namespace _)) _ (λ t h. h)
            λ ns.
              Keeps-bind P (remove_pod kube _ ns) (λ _. emit (metric_dec config host))
                (λ t h. quiet _ t refl h) (λ _ t h. quiet _ t refl h)

  addition-Keeps :
      (name uid ns class : String) (shared : Bool) (node : String) (c : KubeAkriConfig)
      → Keeps P (handle_addition_work kube name uid ns class shared node c)
  unfolding handle_addition_work
  addition-Keeps name uid ns class shared node c t h = elim (Option-cases c.spec.broker_pod_spec) [
    | inl e ↦ simp (e, handle_addition_work) h
    | inr (spec, e) ↦
        simp (e, handle_addition_work)
          (Keeps-bind P (lift (create_new_pod_from_spec ns name class _ _ node shared spec)) _
            (λ t h. h)
            (λ pod.
              Keeps-bind P (create_pod kube pod ns) (λ _. emit (metric_inc class node))
                (λ t h. quiet _ t refl h) (λ _ t h. quiet _ t refl h))
            t h)
  ]

  pub restore-Keeps :
      (checked_add_minutes : Time → ℤ → Option Time) (r : Result KubeAkriInstance)
      → Keeps P (restore_pods kube checked_add_minutes r)
  restore-Keeps checked_add_minutes (err e) = λ t h. h
  restore-Keeps checked_add_minutes (ok inst) =
      change-Keeps checked_add_minutes kube inst InstanceAction.update P
        (λ _ _ t h. quiet _ t refl h) (λ _ t h. quiet _ t refl h) (λ _ _ _ t h. quiet _ t refl h)
        (λ node ctx. deletion-Keeps _ _ _ node ctx)
        (λ uid ns node c. addition-Keeps _ uid ns _ _ node c)

module _ (instance_id configuration_name namespace : String) (kube : KubeInterface) where
  abbrev Removes : Trace → Type 0
  Removes = RemovesUnsupported instance_id configuration_name namespace

  cleanup-Removes :
      (svc : Bool) (r : Result (List PodObject)) (t : Trace)
      → Removes t
      → Removes
          (bind_result
            (r, found_pods_with_label (pod_selector instance_id configuration_name svc) r ∷ t)
            (λ pods.
              cleanup_svc_if_unsupported kube pods
                (svc_name_of instance_id configuration_name svc)
                namespace)).1
  unfolding cleanup_svc_if_unsupported
  cleanup-Removes svc (err e) t h = (tt, h)
  cleanup-Removes svc (ok pods) t h = elim (Bool-cases (nat_eq (num_non_terminating_pods pods) 0)) [
    | inl e ↦ rw e ((svc, pods, t, refl, refl, refl, none-IsGone pods e), (tt, h))
    | inr e ↦ rw e (tt, h)
  ]

  quiet-Removes : (e : Event) (t : Trace) → is_removal e ≡ false → Removes t → Removes (e ∷ t)
  quiet-Removes (removed_service name ns r) t q h = cc
  quiet-Removes _ t q h = (tt, h)

  find-Removes :
      (svc : Bool)
      → Keeps Removes (
          find_pods_and_cleanup_svc_if_unsupported kube instance_id configuration_name namespace
            svc)
  unfolding find_pods_and_cleanup_svc_if_unsupported
  find-Removes svc t h = cleanup-Removes svc (kube.find_pods_with_label t _) t h

module _ (instance_id configuration_name namespace : String) (kube : KubeInterface)
    (checked_add_minutes : Time → ℤ → Option Time) where
  abbrev pub find_and_restore : M Trace (Unit {0})
  find_and_restore t =
      bind_result (attempt (find_instance kube instance_id namespace) t)
        (restore_pods kube checked_add_minutes)

  abbrev pub cleanup : Bool → M Trace (Unit {0})
  cleanup svc =
      find_pods_and_cleanup_svc_if_unsupported kube instance_id configuration_name namespace svc

  abbrev pub cleanup_and_restore : M Trace (Unit {0})
  cleanup_and_restore t =
      bind_result (cleanup true t) (λ _ s. bind_result (cleanup false s) (λ _. find_and_restore))

  module _ (pod : PodObject) (named : pod.metadata.namespace ≡ some namespace)
      (labelled : get_instance_and_configuration_from_pod pod
        ≡ ok (instance_id, configuration_name)) where
    pub non_running_lem :
        (t : Trace) → handle_non_running_pod kube checked_add_minutes pod t ≡ cleanup_and_restore t
    unfolding handle_non_running_pod
    non_running_lem t = simp (named, labelled) refl

    -- A broker Pod that has stopped removes no service but that of its Instance and that of its
    -- Configuration, and each only right after a look at all the Pods of the service that found none
    -- but Terminating and Failed ones, if that holds of the removals before.
    pub handle_non_running_pod-RemovesUnsupported :
        (t : Trace)
        → RemovesUnsupported instance_id configuration_name namespace t
        → RemovesUnsupported instance_id configuration_name namespace
            (handle_non_running_pod kube checked_add_minutes pod t).1
    handle_non_running_pod-RemovesUnsupported t h = rw (non_running_lem t) (
        Keeps-bind P (cleanup true) (λ _ s. bind_result (cleanup false s) (λ _. find_and_restore))
          (find-Removes instance_id configuration_name namespace kube true)
          (λ _.
            Keeps-bind P (cleanup false) (λ _. find_and_restore)
              (find-Removes instance_id configuration_name namespace kube false)
              (λ _.
                Keeps-bind P (attempt (find_instance kube instance_id namespace))
                  (restore_pods kube checked_add_minutes) (λ t h. (tt, h))
                  (restore-Keeps kube P
                    (quiet-Removes instance_id configuration_name namespace kube)
                    checked_add_minutes)))
          t h)
      where
        P : Trace → Type 0
        P = RemovesUnsupported instance_id configuration_name namespace
