-- ===== src/Agent/Udev/Selection.antt =====
-- The devices that a rule selects among those that were scanned.
use mathlib.Core.Path.{subst}
use akri.Base.{
  ℕ, String, Bool, true, false, Option, none, some, List, [], ◌∷◌, any, nat_eq, not, ◌&&◌, ◌≡◌, ◌↔◌,
  refl, ap, arith, Elem, inl, inr, Bool-cases,
}
use akri.Base.HashMap.{get}
use akri.Agent.Udev.{
  Field, devpath, kernel, tag, driver, subsystem, attribute, property, kernels, tags, drivers,
  subsystems, attributes, Operation, equality, inequality, UdevFilter, DeviceInfo, Device, info_of,
  is_equality, is_remaining_filter,
}
use akri.Agent.Udev.Devices.{
  covers, is_regex_match, optional_match, tag_match, filter_equality_check, driver_check,
  keeps_device, tags_key,
}
use akri.Agent.Udev.Ancestors.{HasUp, device_or_parents_iff}

covers_iff : (len : ℕ) (o : Option (ℕ × ℕ)) → (covers len o ≡ true) ↔ (o ≡ some (0, len))
covers_iff len none = (λ h. cc, λ h. cc)
covers_iff len (some (start, end)) = (to, from)
  where
    to :
        (nat_eq start 0 && nat_eq end len) ≡ true
        → Path (Option (ℕ × ℕ)) (some (start, end)) (some (0, len))
    to h = let a : start ≡ 0 = ground arith in let b : end ≡ len = ground arith in rw (a, b) refl

    from :
        Path (Option (ℕ × ℕ)) (some (start, end)) (some (0, len))
        → (nat_eq start 0 && nat_eq end len) ≡ true
    from h =
        let p : Path (ℕ × ℕ) (start, end) (0, len) = cc in
        let a : start ≡ 0 = ap (λ x. x.0) p in let b : end ≡ len = ap (λ x. x.1) p in ground arith

any_iff :
    {A : Type 0} (p : A → Bool) (P : A → Type 0)
    → ((x : A) → (p x ≡ true) ↔ P x)
    → (xs : List A) → (any p xs ≡ true) ↔ ((x : A) × Elem x xs × P x)
any_iff p P reads [] = (λ h. cc, λ (x, e, h). elim e [ ])
any_iff p P reads (x ∷ xs) = elim (Bool-cases (p x)) [
  | inl e ↦ (λ h. (x, inl refl, (reads x).0 e), λ h. ground arith)
  | inr e ↦ (
    λ h. let (y, i, q) = (any_iff p P reads xs).0 (ground arith) in (y, inr i, q),
    λ (y, i, q). elim i [
      | inl same ↦ let f = (reads x).1 (subst P same q) in cc
      | inr j ↦ let g = (any_iff p P reads xs).1 (y, j, q) in ground arith
    ],
  )
]

-- What an operation asks of a field that the device has or has not.
abbrev pub Asks : Operation → Type 0 → Type 0
Asks equality P = P
Asks inequality P = P → ⊥

not_iff : (b : Bool) {P : Type 0} → (b ≡ true) ↔ P → (not b ≡ true) ↔ (P → ⊥)
not_iff true (to, from) = (λ h. cc, λ h. absurd (h (to refl)))
not_iff false (to, from) = (λ h p. let e = from p in cc, λ h. refl)

equality_iff :
    (op : Operation) (b : Bool) {P : Type 0}
    → (b ≡ true) ↔ P
    → (filter_equality_check (is_equality op) b ≡ true) ↔ Asks op P
equality_iff equality true (to, from) = (λ h. to refl, λ h. refl)
equality_iff equality false (to, from) = (λ h. cc, λ h. let e = from h in cc)
equality_iff inequality b i = not_iff b i

module _ {Regex : Type 0} (regex_new : String → Option Regex)
    (regex_find : Regex → String → Option (ℕ × ℕ)) (str_len : String → ℕ)
    (split_colon : String → List String) where
  -- The match that is found is the whole text.
  abbrev pub Matches : Regex → String → Type 0
  Matches r s = regex_find r s ≡ some (0, str_len s)

  abbrev pub MatchesValue : Regex → Option String → Type 0
  MatchesValue r o = (v : String) × (o ≡ some v) × Matches r v

  abbrev pub MatchesTag : Regex → DeviceInfo → Type 0
  MatchesTag r i =
      (v : String) × (t : String) × (get tags_key i.properties ≡ some v)
      × Elem t (split_colon v)
      × Matches r t

  -- What a field with a matching value says of a device; the plural fields look at the parents too.
  abbrev pub Has : Field → Regex → Device → Type 0
  Has devpath r d = Matches r (info_of d).devpath
  Has kernel r d = Matches r (info_of d).sysname
  Has tag r d = MatchesTag r (info_of d)
  Has driver r d = MatchesValue r (info_of d).driver
  Has subsystem r d = MatchesValue r (info_of d).subsystem
  Has (attribute key) r d = MatchesValue r (get key (info_of d).attributes)
  Has (property key) r d = MatchesValue r (get key (info_of d).properties)
  Has kernels r d = HasUp (λ i. Matches r i.sysname) d
  Has tags r d = HasUp (MatchesTag r) d
  Has drivers r d = HasUp (λ i. MatchesValue r i.driver) d
  Has subsystems r d = HasUp (λ i. MatchesValue r i.subsystem) d
  Has (attributes key) r d = HasUp (λ i. MatchesValue r (get key i.attributes)) d

  -- The value of the filter is a regular expression, which the device meets.
  abbrev pub Satisfies : UdevFilter → Device → Type 0
  Satisfies f d = (r : Regex) × (regex_new f.value ≡ some r) × Asks f.operation (Has f.field r d)

  regex_iff :
      (r : Regex) (s : String)
      → (is_regex_match regex_new regex_find str_len split_colon s r ≡ true) ↔ Matches r s
  regex_iff r s = covers_iff (str_len s) (regex_find r s)

  optional_iff :
      (r : Regex) (o : Option String)
      → (optional_match regex_new regex_find str_len split_colon o r ≡ true) ↔ MatchesValue r o
  optional_iff r none = (λ h. cc, λ (v, e, m). cc)
  optional_iff r (some v) = (
    λ h. (v, refl, (regex_iff r v).0 h),
    λ (w, e, m). let same : w ≡ v = cc in (regex_iff r v).1 (subst (Matches r) same m),
  )

  tag_iff :
      (r : Regex) (i : DeviceInfo)
      → (tag_match regex_new regex_find str_len split_colon (get tags_key i.properties) r ≡ true)
        ↔ MatchesTag r i
  tag_iff r i = go (get tags_key i.properties)
    where
      go :
          (o : Option String)
          → (tag_match regex_new regex_find str_len split_colon o r ≡ true)
            ↔ ((v : String) × (t : String) × (o ≡ some v) × Elem t (split_colon v) × Matches r t)
      go none = (λ h. cc, λ (v, t, e, i, m). cc)
      go (some v) =
          let (to, from) = any_iff _ (Matches r) (regex_iff r) (split_colon v) in
          (
            λ h. let (t, i, m) = to h in (v, t, refl, i, m),
            λ (w, t, e, i, m).
                let same : w ≡ v = cc in from (t, subst (λ x. Elem t (split_colon x)) same i, m),
          )

  abbrev keeps : Operation → Field → Regex → Device → Bool
  keeps op field r d =
      keeps_device regex_new regex_find str_len split_colon (is_equality op) field r d

  driver_iff :
      (op : Operation) (r : Regex) (o : Option String)
      → (driver_check regex_new regex_find str_len split_colon (is_equality op) o r ≡ true)
        ↔ Asks op (MatchesValue r o)
  driver_iff equality r none = (λ h. cc, λ (v, e, m). cc)
  driver_iff inequality r none = (λ h (v, e, m). cc, λ h. refl)
  driver_iff op r (some name) = equality_iff op _ (optional_iff r (some name))

  -- A filter that the enumerator cannot apply keeps the devices that meet it.
  pub keeps_iff :
      (op : Operation) (field : Field) (v : String) (r : Regex) (d : Device)
      → is_remaining_filter (record { field = field; operation = op; value = v }) ≡ true
      → (keeps op field r d ≡ true) ↔ Asks op (Has field r d)
  unfolding keeps_device
  keeps_iff equality devpath v r d h = cc
  keeps_iff equality kernel v r d h = cc
  keeps_iff equality tag v r d h = cc
  keeps_iff equality subsystem v r d h = cc
  keeps_iff equality (attribute key) v r d h = cc
  keeps_iff equality (property key) v r d h = cc
  keeps_iff inequality subsystem v r d h = cc
  keeps_iff inequality (attribute key) v r d h = cc
  keeps_iff inequality devpath v r d h = not_iff _ (regex_iff r (info_of d).devpath)
  keeps_iff inequality kernel v r d h = not_iff _ (regex_iff r (info_of d).sysname)
  keeps_iff inequality tag v r d h = not_iff _ (tag_iff r (info_of d))
  keeps_iff inequality (property key) v r d h =
      not_iff _ (optional_iff r (get key (info_of d).properties))
  keeps_iff op driver v r d h = driver_iff op r (info_of d).driver
  keeps_iff op kernels v r d h =
      equality_iff op _ (device_or_parents_iff _ _ (λ i. regex_iff r i.sysname) d)
  keeps_iff op tags v r d h = equality_iff op _ (device_or_parents_iff _ _ (tag_iff r) d)
  keeps_iff op drivers v r d h =
      equality_iff op _ (device_or_parents_iff _ _ (λ i. optional_iff r i.driver) d)
  keeps_iff op subsystems v r d h =
      equality_iff op _ (device_or_parents_iff _ _ (λ i. optional_iff r i.subsystem) d)
  keeps_iff op (attributes key) v r d h =
      equality_iff op _ (device_or_parents_iff _ _ (λ i. optional_iff r (get key i.attributes)) d)
