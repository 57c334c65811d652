-- ===== src/Agent/Handlers/Union.antt =====
-- The devices that a udev Configuration with several rules discovers.
use mathlib.Core.Path.{subst}
use akri.Base.{
  String, false, List, [], ◌∷◌, map, Result, ok, All, Elem, ◌==◌, eq_iff, ◌≡◌, ◌↔◌, refl, sym, ap,
  ◌∙◌, ◌⊎◌, inl, inr, Bool-cases, arith,
}
use akri.Base.Loops.{ok_injective}
use akri.Kube.Types.{UdevDiscoveryHandlerConfig}
use akri.Agent.Handlers.{
  DiscoveryHandler, insert_path, insert_paths, and_then, find_all, Surroundings, do_parse_and_find,
  unshared_device, map_ok, discover,
}

-- No text stands twice.
abbrev pub IsDistinct : List String → Type 0
IsDistinct [] = Unit
IsDistinct (x ∷ xs) = ¬ Elem x xs × IsDistinct xs

insert_path_iff :
    (n path : String) (ps : List String) → Elem n (insert_path path ps) ↔ ((n ≡ path) ⊎ Elem n ps)
unfolding insert_path
insert_path_iff n path [] = (λ h. h, λ h. h)
insert_path_iff n path (p ∷ ps) =
    let (to, from) = insert_path_iff n path ps in
    elim (Bool-cases (p == path)) [
      | inl e ↦ rw e (
        λ h. inr h,
        λ h. elim h [ inl same ↦ inl (same ∙ sym ((eq_iff p path).0 e)) | inr there ↦ there ],
      )
      | inr e ↦ rw e (
        λ h. elim h [
          | inl same ↦ inr (inl same)
          | inr there ↦ elim (to there) [ inl same ↦ inl same | inr i ↦ inr (inr i) ]
        ],
        λ h. elim h [
          | inl same ↦ inr (from (inl same))
          | inr there ↦ elim there [ inl same ↦ inl same | inr i ↦ inr (from (inr i)) ]
        ],
      )
    ]

insert_path-IsDistinct :
    (path : String) (ps : List String) → IsDistinct ps → IsDistinct (insert_path path ps)
unfolding insert_path
insert_path-IsDistinct path [] h = (λ e. e, tt)
insert_path-IsDistinct path (p ∷ ps) (new, h) = elim (Bool-cases (p == path)) [
  | inl e ↦ rw e (new, h)
  | inr e ↦ rw e (apart e, insert_path-IsDistinct path ps h)
]
  where
    apart : (p == path) ≡ false → ¬ Elem p (insert_path path ps)
    apart e there = elim ((insert_path_iff p path ps).0 there) [
      | inl same ↦ ground (arith, eq_iff p path)
      | inr i ↦ new i
    ]

insert_paths_iff :
    (n : String) (set ps : List String) → Elem n (insert_paths set ps) ↔ (Elem n set ⊎ Elem n ps)
unfolding insert_paths
insert_paths_iff n set [] = (λ h. inl h, λ h. elim h [ inl i ↦ i | inr e ↦ elim e [ ] ])
insert_paths_iff n set (p ∷ ps) =
    let (to, from) = insert_paths_iff n (insert_path p set) ps in
    let (down, up) = insert_path_iff n p set in
    (
      λ h. elim (to h) [
        | inl i ↦ elim (down i) [ inl same ↦ inr (inl same) | inr j ↦ inl j ]
        | inr i ↦ inr (inr i)
      ],
      λ h. elim h [
        | inl i ↦ from (inl (up (inr i)))
        | inr i ↦ elim i [ inl same ↦ from (inl (up (inl same))) | inr j ↦ from (inr j) ]
      ],
    )

insert_paths-IsDistinct : (set ps : List String) → IsDistinct set → IsDistinct (insert_paths set ps)
unfolding insert_paths
insert_paths-IsDistinct set [] h = h
insert_paths-IsDistinct set (p ∷ ps) h =
    insert_paths-IsDistinct (insert_path p set) ps (insert_path-IsDistinct p set h)

module _ (find : String → Result (List String)) where
  abbrev pub IsFoundBy : List String → String → Type 0
  IsFoundBy rules n =
      (rule : String) × Elem rule rules
      × (paths : List String) × (find rule ≡ ok paths)
      × Elem n paths

  abbrev pub AllFound : List String → Type 0
  AllFound = All (λ rule. (paths : List String) × (find rule ≡ ok paths))

  find_all_lem :
      (rules set : List String)
      → AllFound rules
      → IsDistinct set
      → (paths : List String) × (find_all find set rules ≡ ok paths)
        × IsDistinct paths
        × ((n : String) → Elem n paths ↔ (Elem n set ⊎ IsFoundBy rules n))
  unfolding find_all
  find_all_lem [] set a d = (
    set,
    refl,
    d,
    λ n. (λ i. inl i, λ h. elim h [ inl i ↦ i | inr (r, e, xs, q, i) ↦ elim e [ ] ]),
  )
  find_all_lem (rule ∷ rules) set ((ps, q), a) d =
      let (paths, same, distinct, member) =
        find_all_lem rules (insert_paths set ps) a (insert_paths-IsDistinct set ps d) in
      (
        paths,
        ap (λ r. and_then find r (λ ps. find_all find (insert_paths set ps) rules)) q ∙ same,
        distinct,
        λ n. (
          λ i. elim ((member n).0 i) [
            | inl j ↦ elim ((insert_paths_iff n set ps).0 j) [
              | inl k ↦ inl k
              | inr k ↦ inr (rule, inl refl, ps, q, k)
            ]
            | inr (r, there, xs, e, k) ↦ inr (r, inr there, xs, e, k)
          ],
          λ h. elim h [
            | inl i ↦ (member n).1 (inl ((insert_paths_iff n set ps).1 (inl i)))
            | inr (r, there, xs, e, k) ↦ back paths n (member n).1 r there xs e k
          ],
        ),
      )
    where
      back :
          (paths : List String) (n : String)
          → (Elem n (insert_paths set ps) ⊎ IsFoundBy rules n → Elem n paths)
          → (r : String) → Elem r (rule ∷ rules)
          → (xs : List String) → find r ≡ ok xs
          → Elem n xs
          → Elem n paths
      back paths n up r (inr there) xs e k = up (inr (r, there, xs, e, k))
      back paths n up r (inl same) xs e k =
          let equal : xs ≡ ps = ok_injective (sym e ∙ ap find same ∙ q) in
          up (inl ((insert_paths_iff n set ps).1 (inr (subst (Elem n) equal k))))

module _ (around : Surroundings) (config : UdevDiscoveryHandlerConfig) where
  -- If each rule of a udev Configuration can be parsed and its devices be scanned, the discovery ends with
  -- one unshared device for each device node that some rule finds, and for no other, and with none
  -- twice, however many rules find it.
  pub discover-IsUnion :
      AllFound (do_parse_and_find around) config.udev_rules
      → (paths : List String) × (discover around (DiscoveryHandler.udev config)
          ≡ ok (map (unshared_device around) paths))
        × IsDistinct paths
        × ((n : String) → Elem n paths ↔ IsFoundBy (do_parse_and_find around) config.udev_rules n)
  unfolding discover
  discover-IsUnion a =
      let (paths, same, distinct, member) =
        find_all_lem (do_parse_and_find around) config.udev_rules [] a tt in
      (
        paths,
        ap (map_ok around (map (unshared_device around))) same,
        distinct,
        λ n. (
          λ i. elim ((member n).0 i) [ inl e ↦ elim e [ ] | inr f ↦ f ],
          λ f. (member n).1 (inr f),
        ),
      )
