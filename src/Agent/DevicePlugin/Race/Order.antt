-- ===== src/Agent/DevicePlugin/Race/Order.antt =====
-- In which order two claims of one slot can both be granted.
use akri.Base.{
  ℕ, suc, ◌≤◌, ◌<◌, String, Option, none, some, ok, err, nat_eq, eq_iff, ◌≡◌, ◌≢◌, refl, ◌⊎◌, inl,
  inr, arith, Bool-cases,
}
use akri.Agent.DevicePlugin.Allocation.{slot_value_of}
use akri.Agent.DevicePlugin.Race.{
  Claim, starting, refused, checked, located, granted, Request, find, find_again, patch, Left,
  after_find, request,
}

-- The versions of a claim that was granted.
abbrev pub grant_of : Claim → Option (ℕ × ℕ)
grant_of (granted read again) = some (read, again)
grant_of _ = none

-- A read at this version has not seen the other claim, if that was granted.
abbrev IsUnseen : ℕ → Option (ℕ × ℕ) → Type 0
IsUnseen read none = Unit
IsUnseen read (some (read', again')) = read ≤ again'

abbrev IsFit : String → ℕ → Option (ℕ × ℕ) → Claim → Type 0
IsFit node version other (checked read value) =
    (value ≡ node) × (read ≤ version) × IsUnseen read other
IsFit node version other (located read again value) =
    (value ≡ node) × (read ≤ again) × (again ≤ version) × IsUnseen read other
IsFit node version other (granted read again) = (read ≤ again) × (again < version)
IsFit node version other _ = Unit

-- Who holds the slot, by the grants: of two, the later one, which has not seen the earlier one.
abbrev pub IsHeld : String → String → String → Option (ℕ × ℕ) → Option (ℕ × ℕ) → Type 0
IsHeld node other holder none none = holder ≡ ""
IsHeld node other holder (some g) none = holder ≡ node
IsHeld node other holder none (some g) = holder ≡ other
IsHeld node other holder (some (read, again)) (some (read', again')) =
    ((again < again') × (read' ≤ again) × (holder ≡ other))
    ⊎ ((again' < again) × (read ≤ again') × (holder ≡ node))

abbrev pub IsSound : String → String → ℕ → String → Claim → Claim → Type 0
IsSound node other version holder p q =
    IsFit node version (grant_of q) p
    × IsFit other version (grant_of p) q
    × IsHeld node other holder (grant_of p) (grant_of q)

swap-IsHeld :
    (node other holder : String) (p q : Option (ℕ × ℕ))
    → IsHeld node other holder p q
    → IsHeld other node holder q p
swap-IsHeld node other holder none none h = h
swap-IsHeld node other holder none (some g) h = h
swap-IsHeld node other holder (some g) none h = h
swap-IsHeld node other holder (some g) (some g') (inl h) = inr h
swap-IsHeld node other holder (some g) (some g') (inr h) = inl h

pub swap-IsSound :
    (node other : String) (version : ℕ) (holder : String) (p q : Claim)
    → IsSound node other version holder p q
    → IsSound other node version holder q p
swap-IsSound node other version holder p q (a, b, c) =
    (b, a, swap-IsHeld node other holder (grant_of p) (grant_of q) c)

module _ (node other : String) (named : node ≢ "") (known : other ≢ "") (apart : node ≢ other) where
  free_lem : (holder : String) → holder ≡ "" → slot_value_of node (some holder) ≡ ok node
  free_lem holder e = ground (arith, eq_iff holder "")

  taken_lem :
      (holder : String)
      → holder ≡ other
      → slot_value_of node (some holder) ≡ err "Requested device already in use"
  taken_lem holder e = ground (arith, eq_iff holder "", eq_iff holder node)

  -- The holder of a slot is the other node only by a grant, so the slot that is read is free, or the claim
  -- is refused.
  find-IsSound :
      (version : ℕ) (holder : String) (q : Claim)
      → IsSound node other version holder starting q
      → IsSound node other version holder (after_find version (slot_value_of node (some holder))) q
  find-IsSound version holder q (a, b, c) = go (grant_of q) c
    where
      claim : Claim
      claim = after_find version (slot_value_of node (some holder))

      go :
          (g : Option (ℕ × ℕ))
          → IsHeld node other holder none g
          → IsFit node version g claim
            × IsFit other version (grant_of claim) q
            × IsHeld node other holder (grant_of claim) g
      go none c = rw (free_lem holder c) ((refl, omega arith, tt), b, c)
      go (some g) c = rw (taken_lem holder c) (tt, b, c)

  -- A patch that the server takes has the present version.
  patch-IsSound :
      (version : ℕ) (holder : String) (read : ℕ) (q : Claim)
      → IsSound node other version holder (located read version node) q
      → IsSound node other (suc version) node (granted read version) q
  patch-IsSound version holder read starting ((v, l, k, u), b, c) = ((l, omega arith), tt, refl)
  patch-IsSound version holder read refused ((v, l, k, u), b, c) = ((l, omega arith), tt, refl)
  patch-IsSound version holder read (checked r x) ((v, l, k, u), (w, m, t), c) =
      ((l, omega arith), (w, omega (arith, m), m), refl)
  patch-IsSound version holder read (located r f x) ((v, l, k, u), (w, m, n, t), c) =
      ((l, omega arith), (w, m, omega (arith, n), omega (arith, m, n)), refl)
  patch-IsSound version holder read (granted r f) ((v, l, k, u), (m, n), c) =
      ((l, omega arith), (m, omega (arith, n)), inr (n, u, refl))

  abbrev pub IsSoundLeft : Claim → Option Left → Type 0
  IsSoundLeft q none = Unit
  IsSoundLeft q (some (claim, version, holder)) = IsSound node other version holder claim q

  try_patch-IsSound :
      (version : ℕ) (holder : String) (read again : ℕ) (value : String) (q : Claim)
      → IsSound node other version holder (located read again value) q
      → IsSoundLeft q (request node patch (located read again value) version holder)
  unfolding request
  try_patch-IsSound version holder read again value q ((v, l, k, u), b, c) =
      elim (Bool-cases (nat_eq version again)) [
        | inr e ↦ rw e (tt, b, c)
        | inl e ↦
            let same : again ≡ version = ground arith in
            rw (e, same, v, (eq_iff node node).1 refl)
              (patch-IsSound version holder read q
                ((refl, omega (arith, l, same), omega arith, u), b, c))
      ]

  pub request-IsSound :
      (r : Request) (p q : Claim) (version : ℕ) (holder : String)
      → IsSound node other version holder p q
      → IsSoundLeft q (request node r p version holder)
  unfolding request
  request-IsSound find starting q version holder h = find-IsSound version holder q h
  request-IsSound find_again (checked read value) q version holder ((v, l, u), b, c) =
      ((v, l, omega arith, u), b, c)
  request-IsSound patch (located read again value) q version holder h =
      try_patch-IsSound version holder read again value q h
  request-IsSound find refused q version holder h = tt
  request-IsSound find (checked r x) q version holder h = tt
  request-IsSound find (located r f x) q version holder h = tt
  request-IsSound find (granted r f) q version holder h = tt
  request-IsSound find_again starting q version holder h = tt
  request-IsSound find_again refused q version holder h = tt
  request-IsSound find_again (located r f x) q version holder h = tt
  request-IsSound find_again (granted r f) q version holder h = tt
  request-IsSound patch starting q version holder h = tt
  request-IsSound patch refused q version holder h = tt
  request-IsSound patch (checked r x) q version holder h = tt
  request-IsSound patch (granted r f) q version holder h = tt
