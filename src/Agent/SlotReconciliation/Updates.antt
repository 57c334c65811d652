-- ===== src/Agent/SlotReconciliation/Updates.antt =====
-- The updates of a run.
use mathlib.Core.Path.{subst}
use akri.Base.{
  ℕ, String, Bool, true, false, Option, none, some, List, [], ◌∷◌, any, Result, ok, err, M,
  bind_result, pure, for_each, ◌&&◌, ◌==◌, if◌then◌else◌, ◌≡◌, refl, sym, ◌∙◌, ap, arith, All, Elem,
  inl, inr, Bool-cases, lift, attempt, ok_or,
}
use akri.Base.HashMap.{get, HasUniqueKeys}
use akri.Base.Loops.{
  Keeps, Keeps-bind, Keeps-for_each, Keeps-if, for_each_inv, bind_inv_ok, bind_inv, bind-eq-ok,
  ok_injective,
}
use akri.Kube.Types.{Time, KubeAkriInstance, PodObject}
use akri.Kube.Api.{
  Event, KubeInterface, updated_instance, got_instances, find_pods_with_field, update_instance,
}
use akri.Agent.SlotReconciliation.Usage.{IsReconciled, modified-IsReconciled}
use akri.Agent.SlotReconciliation.{
  DevicePluginSlotReconciler, on_trace, untrack, contains, unused_slots,
  slots_missing_this_node_name, check_slot, check_known, slots_to_clean, is_empty,
  modified_instance, after_update, send_update, reconcile_instance, reconcile_unless_unready,
  with_instances, reconcile, is_unready,
}

-- The update is one of a listed Instance, brought in line with the slots in use.
abbrev pub SendsFor : String → List String → List KubeAkriInstance → Event → Type 0
SendsFor node used instances (updated_instance after name ns r) =
    (inst : KubeAkriInstance) × Elem inst instances
    × (name ≡ inst.metadata.name)
    × IsReconciled node used inst.spec after
SendsFor node used instances _ = Unit

module _ (kube : KubeInterface) (grace : ℕ) where
  clean_within :
      (slots : List String) (s : DevicePluginSlotReconciler) (clean : List String)
      → (slots_to_clean kube grace slots s).0 ≡ ok clean
      → (k : String) → contains clean k ≡ true
      → contains slots k ≡ true
  unfolding slots_to_clean
  clean_within [] s clean h k e = let t = ap (λ c. contains c k) (ok_injective h) ∙ e in t
  clean_within (slot ∷ slots) s clean h k e =
      let finish : Bool → List String → M DevicePluginSlotReconciler (List String) =
        λ b rest s. (ok (if b then slot ∷ rest else rest), s) in
      let more : Bool → M DevicePluginSlotReconciler (List String) =
        λ b s. bind_result (slots_to_clean kube grace slots s) (finish b) in
      let (b, checked, next) = bind-eq-ok (check_slot kube grace slot s) more h in
      let after = (check_slot kube grace slot s).1 in
      let (rest, cleaned, end) =
        bind-eq-ok (slots_to_clean kube grace slots after) (finish b)
          (ap (λ q. q.0) (sym next) ∙ h) in
      let same = ok_injective (sym (ap (λ q. q.0) (next ∙ end)) ∙ h) in
      go b rest (clean_within slots after rest cleaned k) (ap (λ c. contains c k) same ∙ e)
    where
      go :
          (b : Bool) (rest : List String)
          → (contains rest k ≡ true → contains slots k ≡ true)
          → contains (if b then slot ∷ rest else rest) k ≡ true
          → contains (slot ∷ slots) k ≡ true
      go true rest f h = elim (Bool-cases (slot == k)) [
        | inl q ↦ ground arith
        | inr q ↦ let t = f (ground arith) in ground arith
      ]
      go false rest f h = let t = f h in ground arith

  module _ (node : String) (used : List String) (instances : List KubeAkriInstance) where
    abbrev Sent : DevicePluginSlotReconciler → Type 0
    Sent s = All (SendsFor node used instances) s.trace

    check-Sent : (slot : String) → Keeps Sent (check_slot kube grace slot)
    unfolding check_slot
    check-Sent slot s h = go (get slot s.removal_slot_map)
      where
        go : (o : Option Time) → Sent (check_known kube grace slot o s).1
        go none = (tt, h)
        go (some time) = (tt, h)

    clean-Sent : (slots : List String) → Keeps Sent (slots_to_clean kube grace slots)
    unfolding slots_to_clean
    clean-Sent [] = λ s h. h
    clean-Sent (slot ∷ slots) =
        Keeps-bind Sent (check_slot kube grace slot) _ (check-Sent slot)
          (λ b. Keeps-bind Sent (slots_to_clean kube grace slots) _ (clean-Sent slots) (λ c s h. h))

    untrack_all-Sent : (slots : List String) → Keeps Sent (for_each slots untrack)
    untrack_all-Sent slots = Keeps-for_each Sent untrack slots (λ slot s h. h)

    send-Sent :
        (inst : KubeAkriInstance) (missing clean : List String)
        → Elem inst instances
        → IsReconciled node used inst.spec (modified_instance node missing clean inst.spec)
        → Keeps Sent (send_update kube grace node used inst missing clean)
    unfolding send_update
    send-Sent inst missing clean there ok_update =
        Keeps-bind Sent (lift (ok_or inst.metadata.namespace _)) _ (λ s h. h)
          (λ ns.
            Keeps-bind Sent
              (attempt (
                on_trace (
                  update_instance kube (modified_instance node missing clean inst.spec)
                    inst.metadata.name ns)))
              (after_update kube grace node used clean) (λ s h. ((inst, there, refl, ok_update), h))
              settle)
      where
        settle : (r : Result (Unit {0})) → Keeps Sent (after_update kube grace node used clean r)
        settle (ok u) = untrack_all-Sent clean
        settle (err e) = λ s h. h

    instance-Sent :
        (inst : KubeAkriInstance)
        → Elem inst instances
        → HasUniqueKeys inst.spec.device_usage
        → Keeps Sent (reconcile_instance kube grace node used inst)
    unfolding reconcile_instance
    instance-Sent inst there unique s h =
        let unused = unused_slots node used inst.spec.device_usage in
        let gone = slots_missing_this_node_name node used inst.spec.device_usage in
        bind_inv_ok Sent (slots_to_clean kube grace unused s) _ (clean-Sent unused s h)
          (λ clean found.
            Keeps-if Sent (is_empty clean && is_empty gone) (pure tt)
              (send_update kube grace node used inst gone clean) (λ s h. h)
              (send-Sent inst gone clean there (
                modified-IsReconciled node used inst.spec unique clean
                  (clean_within unused s clean found)))
              (slots_to_clean kube grace unused s).1 (clean-Sent unused s h))

    loop-Sent :
        All (λ i. Elem i instances × HasUniqueKeys i.spec.device_usage) instances
        → Keeps Sent (for_each instances (reconcile_instance kube grace node used))
    loop-Sent q s h =
        for_each_inv Sent (λ i. Elem i instances × HasUniqueKeys i.spec.device_usage)
          (reconcile_instance kube grace node used) (λ i s a. instance-Sent i a.0 a.1 s) instances s
          q h

    rest-Sent :
        All (λ i. Elem i instances × HasUniqueKeys i.spec.device_usage) instances
        → Keeps Sent (with_instances kube grace node used (ok instances))
    rest-Sent q =
        Keeps-bind Sent (attempt (on_trace (find_pods_with_field kube _)))
          (reconcile_unless_unready kube grace node used instances) (λ s h. (tt, h)) go
      where
        go :
            (r : Result (List PodObject))
            → Keeps Sent (reconcile_unless_unready kube grace node used instances r)
        go (err e) = λ s h. h
        go (ok pods) =
            Keeps-if Sent (any is_unready pods) (pure tt)
              (for_each instances (reconcile_instance kube grace node used)) (λ s h. h)
              (loop-Sent q)

    untrack-trace :
        (slots : List String) (s : DevicePluginSlotReconciler)
        → (for_each slots untrack s).1.trace ≡ s.trace
    unfolding for_each
    untrack-trace [] s = refl
    untrack-trace (k ∷ slots) s = untrack-trace slots (untrack k s).1

All-Elem :
    {A : Type 0} (P : A → Type 0) (xs ys : List A)
    → ((x : A) → Elem x xs → Elem x ys)
    → All P xs
    → All (λ x. Elem x ys × P x) xs
All-Elem P [] ys f h = tt
All-Elem P (x ∷ xs) ys f (p, h) = ((f x (inl refl), p), All-Elem P xs ys (λ z e. f z (inr e)) h)

-- Every update of a run is one of an Instance that the cluster listed, and differs from what was listed
-- in this alone: a slot that a container on the node uses is the node's, and a slot of the node that
-- none uses may be freed. Each listed Instance holds each slot once, and the updates before the run,
-- if there are any, are such updates too.
pub reconcile-SendsFor :
    (kube : KubeInterface) (grace : ℕ) (node : String) (used : List String)
    (instances : List KubeAkriInstance) (s : DevicePluginSlotReconciler)
    → kube.get_instances s.trace ≡ ok instances
    → All (λ i. HasUniqueKeys i.spec.device_usage) instances
    → All (SendsFor node used instances) s.trace
    → All (SendsFor node used instances) (reconcile kube grace node (ok used) s).1.trace
unfolding reconcile
reconcile-SendsFor kube grace node used instances s l u h =
    let P = λ (w : DevicePluginSlotReconciler). All (SendsFor node used instances) w.trace in
    let s1 = (for_each used untrack s).1 in
    let start = untrack_all-Sent kube grace node used instances used s h in
    let e : kube.get_instances s1.trace ≡ ok instances =
      ap kube.get_instances (untrack-trace kube grace node used instances used s) ∙ l in
    bind_inv P (for_each used untrack s) _ start (λ _.
      subst
        (λ r.
          P
            (with_instances kube grace node used r
              (record s1 { trace = got_instances r ∷ s1.trace })).1)
        (sym e)
        (rest-Sent kube grace node used instances
          (All-Elem (λ i. HasUniqueKeys i.spec.device_usage) instances instances (λ x t. t) u)
          (record s1 { trace = got_instances (ok instances) ∷ s1.trace }) (tt, start)))
