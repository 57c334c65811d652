-- ===== src/Agent/DevicePlugin/Race/Attempts.antt =====
-- A round of the loop of `try_update_instance_device_usage` as the requests of a claim, whatever the other
-- node does between them.
use akri.Base.{
  ℕ, String, Bool, true, false, Option, none, some, ◌∷◌, Result, ok, err, nat_eq, ◌≡◌, refl, ◌==◌,
  if◌then◌else◌, Bool-cases, inl, inr,
}
use akri.Base.HashMap.{get}
use akri.Kube.Types.{KubeAkriInstance}
use akri.Kube.Api.{Trace, Done, KubeInterface, found_instance}
use akri.Agent.DevicePlugin.Allocation.{
  slot_value_of, get_slot_value, write_slot, settle_update, attempt_claim,
}
use akri.Agent.DevicePlugin.Claims.{with_value, attempt_claim_lem}
use akri.Agent.DevicePlugin.Race.{
  Claim, starting, refused, located, granted, Request, find, find_again, patch, Left, after_find,
  request,
}

-- A request that is not the claim's next one leaves the claim as it is.
abbrev pub claim_of : Claim → Option Left → Claim
claim_of claim none = claim
claim_of claim (some l) = l.0

-- What the server holds when a request comes.
abbrev pub Held : Type 0
Held = ℕ × String

unfoldable pub after_request : String → Request → Held → Claim → Claim
after_request node r (version, holder) claim = claim_of claim (request node r claim version holder)

-- The three requests of a round, each to what the server holds then.
unfoldable pub round : String → Held → Held → Held → Claim
round node at_find at_second at_patch =
    after_request node patch at_patch
      (after_request node find_again at_second (after_request node find at_find starting))

-- The answer to a patch by its version.
abbrev pub patch_answer : String → ℕ → ℕ → Done
patch_answer reason version again = if nat_eq version again then ok tt else err reason

-- A round that returned: the claim is granted, is refused for good, or begins again.
pub data Agrees : Result Done → Claim → Type 0 where
  is_granted : (read again : ℕ) → Agrees (ok (ok tt)) (granted read again)
  is_refused : (e : String) → Agrees (err e) refused
  begins_again : (e : String) → Agrees (ok (err e)) starting

module _ (node : String) where
  value_round : Result String → Held → Held → ℕ → Claim
  value_round q at_second at_patch version =
      after_request node patch at_patch
        (after_request node find_again at_second (after_find version q))

  -- The end of a round, for a value that is free to write, and the answer to the patch.
  patch-Agrees :
      (value : String) (b : Bool) (read again version : ℕ) (holder reason : String) (t : Trace)
      → nat_eq version again ≡ b
      → Agrees
          (settle_update node value (if b then ok tt else err reason) t).0
          (after_request node patch (version, holder) (located read again value))
  unfolding after_request request
  patch-Agrees value false read again version holder reason t e = rw e (begins_again _)
  patch-Agrees value true read again version holder reason t e = elim (Bool-cases (value == node)) [
    | inl f ↦ rw (e, f) (is_granted read again)
    | inr f ↦ rw (e, f) (is_refused _)
  ]

module _ (kube : KubeInterface) (id node name ns : String) where
  module _ (i : KubeAkriInstance) (t : Trace) (reason : String) (at_find at_second at_patch : Held)
      (answer : (value : String)
        → kube.update_instance t (write_slot id value i.spec) name ns
          ≡ patch_answer reason at_patch.0 at_second.0) where
    value-Agrees :
        (q : Result String)
        → Agrees
            (with_value kube id node name ns i q t).0
            (value_round node q at_second at_patch at_find.0)
    unfolding after_request request value_round
    value-Agrees (err e) = is_refused e
    value-Agrees (ok value) = rw (answer value) (
        patch-Agrees node value (nat_eq at_patch.0 at_second.0) at_find.0 at_second.0 at_patch.0
          at_patch.1 reason _ refl)

  -- An attempt finds the Instance with a slot, and its patch is taken if the version of the second read is
  -- still the present one. Then the attempt ends as the three requests of a claim do, whatever the
  -- server held at each: it succeeds if the claim is granted, ends the call with an error if the claim
  -- is refused, and is made again if the claim begins again.
  pub attempt_claim-Agrees :
      (x : ℕ) (t : Trace) (i : KubeAkriInstance) (reason : String)
      (at_find at_second at_patch : Held)
      → kube.find_instance t name ns ≡ ok i
      → get id i.spec.device_usage ≡ some at_find.1
      → ((value : String)
          → kube.update_instance
              (found_instance name ns (ok i) ∷ t)
              (write_slot id value i.spec)
              name
              ns
            ≡ patch_answer reason at_patch.0 at_second.0)
      → Agrees (attempt_claim kube id node name ns x t).0 (round node at_find at_second at_patch)
  unfolding round after_request request value_round get_slot_value
  attempt_claim-Agrees x t i reason at_find at_second at_patch seen slot answer =
      rw (attempt_claim_lem kube id node name ns x t, seen)
        (rw slot (
          value-Agrees i (found_instance name ns (ok i) ∷ t) reason at_find at_second at_patch
            answer (slot_value_of node (some at_find.1))))
