-- ===== src/Agent/DevicePlugin/Claims.antt =====
-- The call for one slot.
use mathlib.Core.Path.{subst}
use akri.Base.{
  ℕ, String, ◌∷◌, Result, ok, err, bind_result, eq_iff, ◌≡◌, refl, sym, ap, arith, Elem, inl, inr,
}
use akri.Base.HashMap.{get, get-insert}
use akri.Base.Loops.{Keeps}
use akri.Kube.Types.{KubeAkriInstance}
use akri.Kube.Api.{Event, Trace, Done, KubeInterface, updated_instance, found_instance}
use akri.Kube.Retry.{attempts-accepted, attempts_keep}
use akri.Agent.DevicePlugin.Allocation.{
  get_slot_value, write_slot, spec_or_error, attempt_claim, try_update_instance_device_usage,
  send_value,
}
use akri.Agent.DevicePlugin.Slots.{
  value_cases, write-IsOwnChange, settle-trace, settle-claim, IsGuarded, WasClaimed,
}

module _ (kube : KubeInterface) (id node name ns : String) where
  -- What an attempt does once the Instance was seen, and once the value is known.
  abbrev pub with_value : KubeAkriInstance → Result String → Trace → Result Done × Trace
  with_value i q t = bind_result (q, t) (send_value kube id node name ns i.spec)

  abbrev pub with_found : Result KubeAkriInstance → Trace → Result Done × Trace
  with_found r t =
      bind_result (spec_or_error name r, found_instance name ns r ∷ t)
        (λ inst s.
          bind_result (get_slot_value id node inst, s) (send_value kube id node name ns inst))

  pub attempt_claim_lem :
      (x : ℕ) (t : Trace)
      → attempt_claim kube id node name ns x t ≡ with_found (kube.find_instance t name ns) t
  unfolding attempt_claim
  attempt_claim_lem x t = refl

  value-IsGuarded :
      (i : KubeAkriInstance) (q : Result String) (t : Trace)
      → get_slot_value id node i.spec ≡ q
      → IsGuarded node t
      → IsGuarded node (with_value i q (found_instance name ns (ok i) ∷ t)).1
  value-IsGuarded i (ok value) t e h =
      rw settle-trace ((refl, refl, id, write-IsOwnChange id node i.spec value e), h)
  value-IsGuarded i (err m) t e h = h

  found-IsGuarded :
      (r : Result KubeAkriInstance) (t : Trace)
      → IsGuarded node t
      → IsGuarded node (with_found r t).1
  found-IsGuarded (ok i) t h = value-IsGuarded i (get_slot_value id node i.spec) t refl h
  found-IsGuarded (err e) t h = h

  claim-IsGuarded : (x : ℕ) → Keeps (IsGuarded node) (attempt_claim kube id node name ns x)
  claim-IsGuarded x t h =
      rw (attempt_claim_lem x t) (found-IsGuarded (kube.find_instance t name ns) t h)

  value-WasClaimed :
      (i : KubeAkriInstance) (q : Result String) (t : Trace)
      → get_slot_value id node i.spec ≡ q
      → (with_value i q t).0 ≡ ok (ok tt)
      → WasClaimed id node name ns (with_value i q t).1
  unfolding get_slot_value
  value-WasClaimed i (ok value) t e h =
      let sent = write_slot id value i.spec in
      let r = kube.update_instance t sent name ns in
      let (claim, done) = settle-claim node value r (updated_instance sent name ns r ∷ t) h in
      rw settle-trace (
        i.spec,
        sent,
        inl (ap (updated_instance sent name ns) (sym done)),
        ground (arith, value_cases node value (get id i.spec.device_usage) e),
        ground (arith, get-insert id id value i.spec.device_usage, eq_iff id id),
      )
  value-WasClaimed i (err m) t e h = cc

  found-WasClaimed :
      (r : Result KubeAkriInstance) (t : Trace)
      → (with_found r t).0 ≡ ok (ok tt)
      → WasClaimed id node name ns (with_found r t).1
  found-WasClaimed (ok i) t h = value-WasClaimed i (get_slot_value id node i.spec) _ refl h
  found-WasClaimed (err e) t h = cc

  claim-WasClaimed :
      (x : ℕ) (t : Trace)
      → (attempt_claim kube id node name ns x t).0 ≡ ok (ok tt)
      → WasClaimed id node name ns (attempt_claim kube id node name ns x t).1
  claim-WasClaimed x t h =
      let e = attempt_claim_lem x t in
      rw e (found-WasClaimed (kube.find_instance t name ns) t (rw e at h))

  pub try_update-IsGuarded :
      Keeps (IsGuarded node) (try_update_instance_device_usage kube id node name ns)
  unfolding try_update_instance_device_usage
  try_update-IsGuarded =
      attempts_keep (attempt_claim kube id node name ns) (IsGuarded node) (λ t h. h) claim-IsGuarded
        5 0

  -- The call returns without an error only if the slot was found free and an update that gives it to
  -- the node was accepted, in one of the five attempts.
  pub try_update-WasClaimed :
      (t : Trace)
      → (try_update_instance_device_usage kube id node name ns t).0 ≡ ok tt
      → WasClaimed id node name ns (try_update_instance_device_usage kube id node name ns t).1
  unfolding try_update_instance_device_usage
  try_update-WasClaimed t h =
      let (y, s, done, end, from) =
        attempts-accepted (attempt_claim kube id node name ns) 5 0 t refl (omega arith) h in
      subst (WasClaimed id node name ns) (sym end) (claim-WasClaimed y s done)

  claim_grows : (e : Event) (x : ℕ) → Keeps (Elem e) (attempt_claim kube id node name ns x)
  claim_grows e x t h = rw (attempt_claim_lem x t) (found_grows (kube.find_instance t name ns))
    where
      sent_grows :
          (i : KubeAkriInstance) (q : Result String) (s : Trace)
          → Elem e s
          → Elem e (with_value i q s).1
      sent_grows i (ok value) s p = rw settle-trace (inr p)
      sent_grows i (err m) s p = p

      found_grows : (r : Result KubeAkriInstance) → Elem e (with_found r t).1
      found_grows (ok i) = sent_grows i (get_slot_value id node i.spec) _ (inr h)
      found_grows (err m) = inr h

  pub try_update_grows :
      (e : Event) → Keeps (Elem e) (try_update_instance_device_usage kube id node name ns)
  unfolding try_update_instance_device_usage
  try_update_grows e =
      attempts_keep (attempt_claim kube id node name ns) (Elem e) (λ t h. inr h) (claim_grows e) 5 0
