-- ===== src/Agent/Udev/Found.antt =====
-- The device nodes that a rule finds.
use mathlib.Core.Path.{subst}
use akri.Base.{
  ℕ, String, Bool, true, Option, none, some, List, [], ◌∷◌, select, Result, ok, ◌≡◌, ◌↔◌, refl, sym,
  ◌∙◌, ap, All, Elem, inl, inr, Bool-cases,
}
use akri.Agent.Udev.{
  UdevFilter, Device, info_of, is_equality, is_remaining_filter, EnumeratorCall, enumerator_calls,
}
use akri.Agent.Udev.Devices.{
  keeps_device, filter_by_remaining_udev_filters, devnodes, find_devices, devnodes_of,
  scanned_devnodes,
}
use akri.Agent.Udev.Selection.{Satisfies, Has, Asks, keeps_iff}

select_iff :
    {A : Type 0} (p : A → Bool) (x : A) (xs : List A)
    → Elem x (select p xs) ↔ (Elem x xs × (p x ≡ true))
select_iff p x [] = (λ e. elim e [ ], λ (e, h). elim e [ ])
select_iff p x (y ∷ ys) = elim (Bool-cases (p y)) [
  | inl e ↦ rw e (
    λ h. elim h [
      | inl same ↦ (inl same, ap p same ∙ e)
      | inr i ↦ let (j, q) = (select_iff p x ys).0 i in (inr j, q)
    ],
    λ (h, q). elim h [ inl same ↦ inl same | inr i ↦ inr ((select_iff p x ys).1 (i, q)) ],
  )
  | inr e ↦ rw e (
    λ h. let (j, q) = (select_iff p x ys).0 h in (inr j, q),
    λ (h, q). elim h [ inl same ↦ let f = ap p same in cc | inr i ↦ (select_iff p x ys).1 (i, q) ],
  )
]

pub devnodes_iff :
    (n : String) (ds : List Device)
    → Elem n (devnodes ds) ↔ ((d : Device) × Elem d ds × ((info_of d).devnode ≡ some n))
unfolding devnodes
devnodes_iff n [] = (λ e. elim e [ ], λ (d, e, h). elim e [ ])
devnodes_iff n (d ∷ ds) = go (info_of d).devnode refl (devnodes_iff n ds)
  where
    go :
        (o : Option String)
        → (info_of d).devnode ≡ o
        → Elem n (devnodes ds) ↔ ((d : Device) × Elem d ds × ((info_of d).devnode ≡ some n))
        → Elem n (elim o [ none ↦ devnodes ds | some m ↦ m ∷ devnodes ds ])
          ↔ ((e : Device) × Elem e (d ∷ ds) × ((info_of e).devnode ≡ some n))
    go none h (to, from) = (
      λ i. let (x, j, q) = to i in (x, inr j, q),
      λ (x, i, q). elim i [
        | inl same ↦ let f = ap (λ y. (info_of y).devnode) same in cc
        | inr j ↦ from (x, j, q)
      ],
    )
    go (some m) h (to, from) = (
      λ i. elim i [
        | inl same ↦ (d, inl refl, h ∙ ap some (sym same))
        | inr j ↦ let (x, k, q) = to j in (x, inr k, q)
      ],
      λ (x, i, q). elim i [
        | inl same ↦
            let f : some n ≡ some m = sym q ∙ ap (λ y. (info_of y).devnode) same ∙ h in inl cc
        | inr j ↦ inr (from (x, j, q))
      ],
    )

module _ {Regex : Type 0} (regex_new : String → Option Regex)
    (regex_find : Regex → String → Option (ℕ × ℕ)) (str_len : String → ℕ)
    (split_colon : String → List String) where
  abbrev pub Compiles : UdevFilter → Type 0
  Compiles f = (r : Regex) × (regex_new f.value ≡ some r)

  abbrev SatisfiesAll : List UdevFilter → Device → Type 0
  SatisfiesAll fs d = All (λ f. Satisfies regex_new regex_find str_len split_colon f d) fs

  -- The filters that the enumerator cannot apply, if their values compile, leave the devices that
  -- satisfy them all.
  filter_lem :
      (fs : List UdevFilter) (ds : List Device)
      → All (λ f. Compiles f × (is_remaining_filter f ≡ true)) fs
      → (out : List Device) × (filter_by_remaining_udev_filters regex_new regex_find str_len
            split_colon fs ds
          ≡ some out)
        × ((d : Device) → Elem d out ↔ (Elem d ds × SatisfiesAll fs d))
  unfolding filter_by_remaining_udev_filters
  filter_lem [] ds h = (ds, refl, λ d. (λ e. (e, tt), λ (e, u). e))
  filter_lem (f ∷ fs) ds (((r, c), q), h) =
      let p =
        keeps_device regex_new regex_find str_len split_colon (is_equality f.operation) f.field r in
      let (out, same, member) = filter_lem fs (select p ds) h in
      (
        out,
        rw (c, filter_by_remaining_udev_filters) same,
        λ d. (
          λ e.
              let (i, s) = (member d).0 e in
              let (j, k) = (select_iff p d ds).0 i in
              (
                j,
                (
                  (
                    r,
                    c,
                    (keeps_iff regex_new regex_find str_len split_colon f.operation f.field f.value
                          r d q).0
                        k,
                  ),
                  s,
                ),
              ),
          λ (j, ((x, c', a), s)).
              let same : x ≡ r = cc in
              (member d).1 (
                (select_iff p d ds).1 (
                  j,
                  (keeps_iff regex_new regex_find str_len split_colon f.operation f.field f.value r
                        d q).1
                      (subst
                        (λ y.
                          Asks f.operation
                            (Has regex_new regex_find str_len split_colon f.field y d))
                        same a),
                ),
                s,
              ),
        ),
      )

  All-selected :
      (fs : List UdevFilter)
      → All Compiles (select is_remaining_filter fs)
      → All (λ f. Compiles f × (is_remaining_filter f ≡ true)) (select is_remaining_filter fs)
  All-selected [] h = tt
  All-selected (f ∷ fs) h = elim (Bool-cases (is_remaining_filter f)) [
    | inl e ↦ rw e (let (c, q) = rw e at h in ((c, e), All-selected fs q))
    | inr e ↦ rw e (All-selected fs (rw e at h))
  ]

  module _ (scan_devices : List EnumeratorCall → Result (List Device))
      (filters : List UdevFilter) where
    -- If the enumerator scans these devices for its part of the rule, and each value of the other part is
    -- a regular expression, the search ends with device nodes: those of exactly the scanned devices which
    -- satisfy all of the other part, where plural fields look at a device and all its parents.
    pub find_devices_iff :
        (ds : List Device)
        → scan_devices (enumerator_calls filters) ≡ ok ds
        → All Compiles (select is_remaining_filter filters)
        → (paths : List String) × (find_devices regex_new regex_find str_len split_colon
              scan_devices filters
            ≡ some (ok paths))
          × ((n : String)
              → Elem n paths ↔ (
                  (d : Device) × Elem d ds
                  × ((info_of d).devnode ≡ some n)
                  × SatisfiesAll (select is_remaining_filter filters) d))
    unfolding find_devices
    find_devices_iff ds e h =
        let (out, same, member) =
          filter_lem (select is_remaining_filter filters) ds (All-selected filters h) in
        (
          devnodes out,
          ap (scanned_devnodes regex_new regex_find str_len split_colon filters) e
              ∙ ap devnodes_of same,
          λ n. (
            λ i.
                let (d, j, q) = (devnodes_iff n out).0 i in
                let (k, s) = (member d).0 j in (d, k, q, s),
            λ (d, k, q, s). (devnodes_iff n out).1 (d, (member d).1 (k, s), q),
          ),
        )
