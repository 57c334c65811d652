-- ===== src/Agent/DevicePlugin/Race/Grants.antt =====
-- What the grants of a contest say of the slot.
use mathlib.Core.Path.{subst}
use akri.Base.{ℕ, String, Bool, true, false, Option, none, some, ◌≡◌, ◌≢◌, refl, sym}
use akri.Agent.DevicePlugin.Race.{
  Contest, Request, Left, request, set_first, set_second, contest_step, free_slot,
}
use akri.Agent.DevicePlugin.Race.Order.{
  grant_of, IsHeld, IsSound, swap-IsSound, IsSoundLeft, request-IsSound,
}

-- What two nodes can bring about from a free slot.
pub data Reach (node other : String) (version : ℕ) : Contest → Type 0 where
  here : Reach node other version (free_slot version)
  next :
      {s t : Contest}
      → Reach node other version s
      → (is_first : Bool) (r : Request) → contest_step node other is_first r s ≡ some t
      → Reach node other version t

some_injective : {A : Type 0} {x y : A} → some x ≡ some y → x ≡ y
some_injective e = cc

module _ (node other : String) (named : node ≢ "") (known : other ≢ "") (apart : node ≢ other)
    (version : ℕ) where
  abbrev IsSoundAt : Contest → Type 0
  IsSoundAt s = IsSound node other s.version s.holder s.first s.second

  first-IsSound :
      (s t : Contest) (o : Option Left)
      → IsSoundLeft node other named known apart s.second o
      → set_first s o ≡ some t
      → IsSoundAt t
  first-IsSound s t none h e = cc
  first-IsSound s t (some (claim, v, holder)) h e = subst IsSoundAt (some_injective e) h

  second-IsSound :
      (s t : Contest) (o : Option Left)
      → IsSoundLeft other node known named (λ e. apart (sym e)) s.first o
      → set_second s o ≡ some t
      → IsSoundAt t
  second-IsSound s t none h e = cc
  second-IsSound s t (some (claim, v, holder)) h e =
      subst IsSoundAt (some_injective e) (swap-IsSound other node v holder claim s.first h)

  Reach-IsSound : {s : Contest} → Reach node other version s → IsSoundAt s
  unfolding contest_step
  Reach-IsSound here = (tt, tt, refl)
  Reach-IsSound (next {s = s} {t = t} run true r e) =
      first-IsSound s t (request node r s.first s.version s.holder)
        (request-IsSound node other named known apart r s.first s.second s.version s.holder
          (Reach-IsSound run))
        e
  Reach-IsSound (next {s = s} {t = t} run false r e) =
      second-IsSound s t (request other r s.second s.version s.holder)
        (request-IsSound other node known named (λ q. apart (sym q)) r s.second s.first s.version
          s.holder
          (swap-IsSound node other s.version s.holder s.first s.second (Reach-IsSound run)))
        e

  -- Two nodes contend for a slot that is free at the start, against a server that refuses a patch of an old
  -- version. The slot is free until a claim of it is granted, and is held by the node whose claim was granted
  -- last. Both claims are granted only if the later one read the slot before the patch of the earlier
  -- one; a node that reads the slot afterwards is refused.
  pub Reach-IsHeld :
      {s : Contest}
      → Reach node other version s
      → IsHeld node other s.holder (grant_of s.first) (grant_of s.second)
  Reach-IsHeld run = (Reach-IsSound run).2
