-- ===== src/Controller/PodServices/Decisions.antt =====
-- What a call of `handle_non_running_pod` that ends without an error has done.
use akri.Base.{
  String, Bool, true, false, Option, some, List, [], ◌∷◌, Result, ok, err, M, bind_result, nat_eq,
  ◌≡◌, refl, sym, ap, Elem, ◌⊎◌, inl, inr, Bool-cases,
}
use akri.Base.Loops.{Keeps, Keeps-bind, Keeps-if, bind_post}
use akri.Kube.Types.{ℤ, Time, PodObject, KubeAkriInstance}
use akri.Kube.Api.{
  Event, Trace, KubeInterface, find_pods_with_label, found_pods_with_label, removed_service,
  found_instance,
}
use akri.Controller.PodAction.{InstanceAction}
use akri.Controller.InstanceAction.{handle_instance_change}
use akri.Controller.PodServices.{
  is_non_terminating, num_non_terminating_pods, pod_selector, cleanup_svc_if_unsupported,
  find_pods_and_cleanup_svc_if_unsupported, restore_pods, handle_non_running_pod,
  get_instance_and_configuration_from_pod,
}
use akri.Controller.PodServices.Removals.{
  IsGone, svc_name_of, restore-Keeps, non_running_lem, cleanup, find_and_restore,
}

-- The Pod is none of the gone ones.
abbrev pub IsSupporter : PodObject → Type 0
IsSupporter pod = IsGone pod → ⊥

IsSupporter-intro : (pod : PodObject) → is_non_terminating pod ≡ true → IsSupporter pod
IsSupporter-intro pod h (inl e) = let f = simp e at h in cc
IsSupporter-intro pod h (inr e) = let f = simp e at h in cc

some-IsSupporter :
    (pods : List PodObject)
    → nat_eq (num_non_terminating_pods pods) 0 ≡ false
    → (pod : PodObject) × Elem pod pods × IsSupporter pod
some-IsSupporter [] h = cc
some-IsSupporter (pod ∷ pods) h = elim (Bool-cases (is_non_terminating pod)) [
  | inl e ↦ (pod, inl refl, IsSupporter-intro pod e)
  | inr e ↦ let (p, i, s) = some-IsSupporter pods (simp e at h) in (p, inr i, s)
]

module _ (instance_id configuration_name namespace : String) where
  -- The Pods of the service were looked at, and one supports it, or the call to remove it returned no error.
  abbrev pub WasDecided : Bool → Trace → Type 0
  WasDecided svc t =
      (pods : List PodObject) × Elem
        (found_pods_with_label (pod_selector instance_id configuration_name svc) (ok pods)) t
      × (((pod : PodObject) × Elem pod pods × IsSupporter pod)
          ⊎ Elem
              (removed_service (svc_name_of instance_id configuration_name svc) namespace (ok tt))
              t)

  WasDecided-cons : (svc : Bool) (e : Event) (t : Trace) → WasDecided svc t → WasDecided svc (e ∷ t)
  WasDecided-cons svc e t (pods, l, inl p) = (pods, inr l, inl p)
  WasDecided-cons svc e t (pods, l, inr r) = (pods, inr l, inr (inr r))

  -- The Instance was looked for, and what was found of it was handled.
  abbrev pub Handled :
      KubeInterface → (Time → ℤ → Option Time) → Trace → Result KubeAkriInstance → Trace → Type 0
  Handled kube checked_add_minutes s (ok inst) t =
      handle_instance_change checked_add_minutes kube inst InstanceAction.update
        (found_instance instance_id namespace (ok inst) ∷ s)
      ≡ (ok tt, t)
  Handled kube checked_add_minutes s (err e) t =
      t ≡ found_instance instance_id namespace (err e) ∷ s

  module _ (kube : KubeInterface) where
    found-WasDecided :
        (svc : Bool) (pods : List PodObject) (t : Trace)
        → let m =
            cleanup_svc_if_unsupported kube pods
              (svc_name_of instance_id configuration_name svc)
              namespace
              (found_pods_with_label (pod_selector instance_id configuration_name svc) (ok pods)
                ∷ t) in
          m.0 ≡ ok tt → WasDecided svc m.1
    unfolding cleanup_svc_if_unsupported
    found-WasDecided svc pods t h = elim (Bool-cases (nat_eq (num_non_terminating_pods pods) 0)) [
      | inl e ↦ rw e (
        pods,
        inr (inl refl),
        inr (
            inl (
              ap (removed_service (svc_name_of instance_id configuration_name svc) namespace)
                (sym (rw e at h)))),
      )
      | inr e ↦ rw e (pods, inl refl, inl (some-IsSupporter pods e))
    ]

    cleanup-WasDecided :
        (svc : Bool) (t : Trace)
        → (find_pods_and_cleanup_svc_if_unsupported kube instance_id configuration_name namespace
            svc t).0
          ≡ ok tt
        → WasDecided svc
            (find_pods_and_cleanup_svc_if_unsupported kube instance_id configuration_name namespace
              svc t).1
    unfolding find_pods_and_cleanup_svc_if_unsupported
    cleanup-WasDecided svc t h = go (kube.find_pods_with_label t _) h
      where
        look : List PodObject → M Trace (Unit {0})
        look pods =
            cleanup_svc_if_unsupported kube pods (svc_name_of instance_id configuration_name svc)
              namespace

        sel : String
        sel = pod_selector instance_id configuration_name svc

        go :
            (r : Result (List PodObject))
            → (bind_result (r, found_pods_with_label sel r ∷ t) look).0 ≡ ok tt
            → WasDecided svc (bind_result (r, found_pods_with_label sel r ∷ t) look).1
        go (ok pods) h = found-WasDecided svc pods t h
        go (err e) h = cc

    cleanup-Keeps :
        (P : Trace → Type 0)
        → ((e : Event) (t : Trace) → P t → P (e ∷ t))
        → (svc : Bool)
        → Keeps P (
            find_pods_and_cleanup_svc_if_unsupported kube instance_id configuration_name namespace
              svc)
    unfolding find_pods_and_cleanup_svc_if_unsupported cleanup_svc_if_unsupported
    cleanup-Keeps P k svc =
        Keeps-bind P (find_pods_with_label kube (pod_selector instance_id configuration_name svc))
          (λ pods.
            cleanup_svc_if_unsupported kube pods (svc_name_of instance_id configuration_name svc)
              namespace)
          (λ t h. k _ t h)
          (λ pods.
            Keeps-if P (nat_eq (num_non_terminating_pods pods) 0) _ _ (λ t h. k _ t h) (λ t h. h))

    module _ (checked_add_minutes : Time → ℤ → Option Time) (pod : PodObject)
        (named : pod.metadata.namespace ≡ some namespace)
        (labelled : get_instance_and_configuration_from_pod pod
          ≡ ok (instance_id, configuration_name)) where
      restore-Handled :
          (s : Trace)
          → let m =
              find_and_restore instance_id configuration_name namespace kube checked_add_minutes
                s in
            m.0 ≡ ok tt
            → Handled kube checked_add_minutes s (kube.find_instance s instance_id namespace) m.1
      restore-Handled s h = go (kube.find_instance s instance_id namespace) h
        where
          go :
              (r : Result KubeAkriInstance)
              → let m =
                  restore_pods kube checked_add_minutes r
                    (found_instance instance_id namespace r ∷ s) in
                m.0 ≡ ok tt → Handled kube checked_add_minutes s r m.1
          go (ok inst) h = cc
          go (err e) h = refl

      -- If the call for a broker Pod that has stopped ends without an error, each of its two services has
      -- a Pod that was found and supports it, or was removed by a call that returned no error; then the
      -- Instance was looked for, and if it was found, the call has run `handle_instance_change` on it, without
      -- an error and as its last step.
      pub handle_non_running_pod-WasDecided :
          (t : Trace)
          → (handle_non_running_pod kube checked_add_minutes pod t).0 ≡ ok tt
          → ((svc : Bool)
              → WasDecided svc (handle_non_running_pod kube checked_add_minutes pod t).1)
            × ((s : Trace) × Handled kube checked_add_minutes s
                  (kube.find_instance s instance_id namespace)
                  (handle_non_running_pod kube checked_add_minutes pod t).1)
      handle_non_running_pod-WasDecided t =
          rw
            (non_running_lem instance_id configuration_name namespace kube checked_add_minutes pod
              named labelled t)
            (bind_post Q (tidy true t) (λ _ s. bind_result (tidy false s) (λ _. restore))
              (λ _ first.
                bind_post Q (tidy false (tidy true t).1) (λ _. restore)
                  (λ _ second last.
                    let at_two = cleanup-WasDecided false (tidy true t).1 second in
                    let at_one =
                      cleanup-Keeps (WasDecided true) (WasDecided-cons true) false (tidy true t).1
                        (cleanup-WasDecided true t first) in
                    let s = (tidy false (tidy true t).1).1 in
                    (λ svc. decided s at_one at_two svc, (s, restore-Handled s last)))))
        where
          tidy : Bool → M Trace (Unit {0})
          tidy = cleanup instance_id configuration_name namespace kube checked_add_minutes

          restore : M Trace (Unit {0})
          restore =
              find_and_restore instance_id configuration_name namespace kube checked_add_minutes

          Q : Trace → Type 0
          Q t' =
              ((svc : Bool) → WasDecided svc t')
              × ((s : Trace) × Handled kube checked_add_minutes s
                    (kube.find_instance s instance_id namespace) t')

          decided :
              (s : Trace)
              → WasDecided true s
              → WasDecided false s
              → (svc : Bool) → WasDecided svc (restore s).1
          decided s one two svc =
              restore-Keeps kube (WasDecided svc) (λ e t _. WasDecided-cons svc e t)
                checked_add_minutes (kube.find_instance s instance_id namespace)
                (found_instance instance_id namespace _ ∷ s) (WasDecided-cons svc _ s (pick svc))
            where
              pick : (svc : Bool) → WasDecided svc s
              pick true = one
              pick false = two
