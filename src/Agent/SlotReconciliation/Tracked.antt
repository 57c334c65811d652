-- ===== src/Agent/SlotReconciliation/Tracked.antt =====
-- The slots that the reconciler tracks.
use akri.Base.{
  ℕ, String, true, Option, none, some, List, [], ◌∷◌, any, Result, ok, err, for_each, not, ◌&&◌,
  ◌==◌, eq_iff, ◌≡◌, ◌≢◌, ◌∙◌, ap, arith, All, inl, inr, Bool-cases, pure, lift, attempt, ok_or,
}
use akri.Base.HashMap.{HashMap, get, get-insert, get-remove}
use akri.Base.Loops.{Keeps, Keeps-bind, Keeps-for_each, Keeps-if, bind_inv}
use akri.Kube.Types.{Time, KubeAkriInstance, PodObject}
use akri.Kube.Api.{KubeInterface, find_pods_with_field, get_instances, update_instance}
use akri.Agent.SlotReconciliation.{
  DevicePluginSlotReconciler, on_trace, untrack, contains, unused_slots, check_slot, check_known,
  is_empty, slots_to_clean, after_update, send_update, reconcile_instance, reconcile_unless_unready,
  with_instances, reconcile, slots_missing_this_node_name, is_unready, modified_instance,
}

-- The slot is not tracked.
abbrev pub IsUntracked : String → DevicePluginSlotReconciler → Type 0
IsUntracked slot s = get slot s.removal_slot_map ≡ none

untrack-IsUntracked : (slot k : String) → Keeps (IsUntracked slot) (untrack k)
untrack-IsUntracked slot k s h = ground (arith, get-remove k slot s.removal_slot_map)

untrack_all :
    (slots : List String) (slot : String) (s : DevicePluginSlotReconciler)
    → contains slots slot ≡ true
    → IsUntracked slot (for_each slots untrack s).1
unfolding for_each
untrack_all [] slot s h = cc
untrack_all (k ∷ slots) slot s h = elim (Bool-cases (k == slot)) [
  | inl e ↦
      Keeps-for_each (IsUntracked slot) untrack slots (untrack-IsUntracked slot) (untrack k s).1
        (ground (arith, get-remove k slot s.removal_slot_map))
  | inr e ↦ untrack_all slots slot (untrack k s).1 (ground arith)
]

-- A slot that a container uses is none of the unused ones.
unused-ne :
    (node : String) (used : List String) (slot : String) (usage : HashMap String)
    → contains used slot ≡ true
    → All (λ k. k ≢ slot) (unused_slots node used usage)
unfolding unused_slots
unused-ne node used slot [] h = tt
unused-ne node used slot ((k, v) ∷ usage) h =
    elim (Bool-cases (v == node && not (contains used k))) [
      | inl e ↦ rw e (
        (λ same. let t : contains used k ≡ true = ap (contains used) same ∙ h in ground arith),
        unused-ne node used slot usage h,
      )
      | inr e ↦ rw e (unused-ne node used slot usage h)
    ]

module _ (kube : KubeInterface) (grace : ℕ) where
  check-IsUntracked :
      (slot k : String) → k ≢ slot → Keeps (IsUntracked slot) (check_slot kube grace k)
  unfolding check_slot
  check-IsUntracked slot k ne s h = go (get k s.removal_slot_map)
    where
      go : (o : Option Time) → IsUntracked slot (check_known kube grace k o s).1
      go none =
          ground
            (arith, get-insert k slot (kube.instant_now s.trace) s.removal_slot_map, eq_iff k slot)
      go (some time) = h

  clean-IsUntracked :
      (slot : String) (slots : List String)
      → All (λ k. k ≢ slot) slots
      → Keeps (IsUntracked slot) (slots_to_clean kube grace slots)
  unfolding slots_to_clean
  clean-IsUntracked slot [] q = λ s h. h
  clean-IsUntracked slot (k ∷ slots) (ne, q) =
      Keeps-bind (IsUntracked slot) (check_slot kube grace k) _ (check-IsUntracked slot k ne) (λ b.
        Keeps-bind (IsUntracked slot) (slots_to_clean kube grace slots) _
          (clean-IsUntracked slot slots q) (λ c s h. h))

  module _ (node : String) (used : List String) (slot : String)
      (is_used : contains used slot ≡ true) where
    send-IsUntracked :
        (inst : KubeAkriInstance) (missing clean : List String)
        → Keeps (IsUntracked slot) (send_update kube grace node used inst missing clean)
    unfolding send_update
    send-IsUntracked inst missing clean =
        Keeps-bind (IsUntracked slot) (lift (ok_or inst.metadata.namespace _)) _ (λ s h. h)
          (λ ns.
            Keeps-bind (IsUntracked slot)
              (attempt (
                on_trace (
                  update_instance kube (modified_instance node missing clean inst.spec)
                    inst.metadata.name ns)))
              (after_update kube grace node used clean) (λ s h. h) settle)
      where
        settle :
            (r : Result (Unit {0}))
            → Keeps (IsUntracked slot) (after_update kube grace node used clean r)
        settle (ok u) = Keeps-for_each (IsUntracked slot) untrack clean (untrack-IsUntracked slot)
        settle (err e) = λ s h. h

    instance-IsUntracked :
        (inst : KubeAkriInstance)
        → Keeps (IsUntracked slot) (reconcile_instance kube grace node used inst)
    unfolding reconcile_instance
    instance-IsUntracked inst =
        Keeps-bind (IsUntracked slot)
          (slots_to_clean kube grace (unused_slots node used inst.spec.device_usage)) _
          (clean-IsUntracked slot _ (unused-ne node used slot inst.spec.device_usage is_used))
          (λ clean.
            let missing = slots_missing_this_node_name node used inst.spec.device_usage in
            Keeps-if (IsUntracked slot) (is_empty clean && is_empty missing) (pure tt)
              (send_update kube grace node used inst missing clean) (λ s h. h)
              (send-IsUntracked inst missing clean))

    rest-IsUntracked :
        (r : Result (List KubeAkriInstance))
        → Keeps (IsUntracked slot) (with_instances kube grace node used r)
    rest-IsUntracked (err e) = λ s h. h
    rest-IsUntracked (ok instances) =
        Keeps-bind (IsUntracked slot) (attempt (on_trace (find_pods_with_field kube _)))
          (reconcile_unless_unready kube grace node used instances) (λ s h. h) go
      where
        go :
            (r : Result (List PodObject))
            → Keeps (IsUntracked slot) (reconcile_unless_unready kube grace node used instances r)
        go (err e) = λ s h. h
        go (ok pods) =
            Keeps-if (IsUntracked slot) (any is_unready pods) (pure tt)
              (for_each instances (reconcile_instance kube grace node used)) (λ s h. h)
              (Keeps-for_each (IsUntracked slot) (reconcile_instance kube grace node used) instances
                instance-IsUntracked)

    -- After a run whose query succeeds, whatever the cluster answers to it, no slot that a container on
    -- the node uses is tracked.
    pub reconcile-IsUntracked :
        (s : DevicePluginSlotReconciler)
        → IsUntracked slot (reconcile kube grace node (ok used) s).1
    unfolding reconcile
    reconcile-IsUntracked s =
        bind_inv (IsUntracked slot) (for_each used untrack s) _ (untrack_all used slot s is_used)
          (λ u.
            Keeps-bind (IsUntracked slot) (attempt (on_trace (get_instances kube)))
              (with_instances kube grace node used) (λ s h. h) rest-IsUntracked
              (for_each used untrack s).1 (untrack_all used slot s is_used))
