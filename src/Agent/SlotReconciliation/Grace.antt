-- ===== src/Agent/SlotReconciliation/Grace.antt =====
-- The grace period of an unused slot.
use mathlib.Core.Path.{subst}
use akri.Base.{
  ℕ, ◌+◌, ◌<◌, ◌≤◌, String, Bool, true, false, Option, none, some, List, [], ◌∷◌, ok, M,
  bind_result, eq_iff, if◌then◌else◌, ◌≡◌, ◌≢◌, refl, sym, ◌∙◌, ap, arith, All, All-map, Elem,
  Elem-All, inl, inr,
}
use akri.Base.HashMap.{get, get-insert}
use akri.Base.Loops.{ok_injective, bind-eq-ok}
use akri.Kube.Types.{Time}
use akri.Kube.Api.{Trace, KubeInterface}
use akri.Agent.SlotReconciliation.{
  DevicePluginSlotReconciler, is_expired, check_slot, check_known, slots_to_clean,
}

-- The slot was tracked, and by the latest time that the clock shows for longer than the grace period.
abbrev pub IsStale : ℕ → Time → DevicePluginSlotReconciler → String → Type 0
IsStale grace late s slot =
    (time : Time) × (get slot s.removal_slot_map ≡ some time) × (time + grace < late)

-- No slot stands twice in the list.
abbrev pub IsDistinct : List String → Type 0
IsDistinct [] = Unit
IsDistinct (k ∷ ks) = All (λ j. k ≢ j) ks × IsDistinct ks

expired_lem : (grace time now : ℕ) → is_expired grace time now ≡ true → time + grace < now
expired_lem grace time now h = ground arith

All-and :
    {A : Type 0} (P Q : A → Type 0) (xs : List A) → All P xs → All Q xs → All (λ x. P x × Q x) xs
All-and P Q [] p q = tt
All-and P Q (x ∷ xs) (p, ps) (q, qs) = ((p, q), All-and P Q xs ps qs)

module _ (kube : KubeInterface) (grace : ℕ) (late : Time)
    (clock : (t : Trace) → kube.instant_now t ≤ late) where
  check_other :
      (slot k : String) (s : DevicePluginSlotReconciler)
      → slot ≢ k
      → get k (check_slot kube grace slot s).1.removal_slot_map ≡ get k s.removal_slot_map
  unfolding check_slot
  check_other slot k s ne = go (get slot s.removal_slot_map)
    where
      go :
          (o : Option Time)
          → get k (check_known kube grace slot o s).1.removal_slot_map ≡ get k s.removal_slot_map
      go none =
          ground
            (arith, get-insert slot k (kube.instant_now s.trace) s.removal_slot_map, eq_iff slot k)
      go (some time) = refl

  check-IsStale :
      (slot : String) (s : DevicePluginSlotReconciler)
      → (check_slot kube grace slot s).0 ≡ ok true
      → IsStale grace late s slot
  unfolding check_slot
  check-IsStale slot s h = go (get slot s.removal_slot_map) refl h
    where
      go :
          (o : Option Time)
          → get slot s.removal_slot_map ≡ o
          → (check_known kube grace slot o s).0 ≡ ok true
          → IsStale grace late s slot
      go none e h = cc
      go (some time) e h =
          let now = kube.instant_now s.trace in
          let l = expired_lem grace time now (ground arith) in
          let u = clock s.trace in (time, e, omega arith)

  -- Of distinct slots, only those are to be cleaned that were tracked before the run came to them, and
  -- for longer than the grace period by the latest time that the clock shows.
  pub slots_to_clean-IsStale :
      (slots : List String) (s : DevicePluginSlotReconciler) (clean : List String)
      → IsDistinct slots
      → (slots_to_clean kube grace slots s).0 ≡ ok clean
      → All (IsStale grace late s) clean × All (λ k. Elem k slots) clean
  unfolding slots_to_clean
  slots_to_clean-IsStale [] s clean d h = rw (ok_injective (sym h)) (tt, tt)
  slots_to_clean-IsStale (slot ∷ slots) s clean (ne, d) h =
      let last = λ (b : Bool) (rest : List String). if b then slot ∷ rest else rest in
      let finish : Bool → List String → M DevicePluginSlotReconciler (List String) =
        λ b rest s. (ok (last b rest), s) in
      let more : Bool → M DevicePluginSlotReconciler (List String) =
        λ b s. bind_result (slots_to_clean kube grace slots s) (finish b) in
      let (b, checked, next) = bind-eq-ok (check_slot kube grace slot s) more h in
      let after = (check_slot kube grace slot s).1 in
      let (rest, cleaned, end) =
        bind-eq-ok (slots_to_clean kube grace slots after) (finish b)
          (ap (λ q. q.0) (sym next) ∙ h) in
      let (stale, there) = slots_to_clean-IsStale slots after rest d cleaned in
      let kept = All-and (IsStale grace late after) (λ k. Elem k slots) rest stale there in
      let same : last b rest ≡ clean = ok_injective (sym (ap (λ q. q.0) (next ∙ end)) ∙ h) in
      subst (λ c. All (IsStale grace late s) c × All (λ k. Elem k (slot ∷ slots)) c) same
        (go b checked rest (All-map earlier rest kept) (All-map (λ k e. inr e) rest there))
    where
      earlier :
          (k : String)
          → IsStale grace late (check_slot kube grace slot s).1 k × Elem k slots
          → IsStale grace late s k
      earlier k ((time, e, l), there) =
          (time, sym (check_other slot k s (Elem-All (λ j. slot ≢ j) k slots there ne)) ∙ e, l)

      go :
          (b : Bool)
          → (check_slot kube grace slot s).0 ≡ ok b
          → (rest : List String) → All (IsStale grace late s) rest
          → All (λ k. Elem k (slot ∷ slots)) rest
          → All (IsStale grace late s) (if b then slot ∷ rest else rest)
            × All (λ k. Elem k (slot ∷ slots)) (if b then slot ∷ rest else rest)
      go true e rest p q = ((check-IsStale slot s e, p), (inl refl, q))
      go false e rest p q = (p, q)
