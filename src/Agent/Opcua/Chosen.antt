-- ===== src/Agent/Opcua/Chosen.antt =====
-- The discovery URL that is chosen of an application.
use mathlib.Core.Path.{subst}
use akri.Base.{
  String, Bool, true, false, Option, none, some, List, [], ◌∷◌, ◌++◌, any, ◌==◌, eq_iff, ◌≡◌, ◌↔◌,
  refl, sym, ◌∙◌, ap, arith, All, Elem, ◌⊎◌, inl, inr, Bool-cases,
}
use akri.Kube.Types.{FilterType, FilterList}
use akri.Agent.Opcua.{
  should_include, includes, ApplicationType, ApplicationDescription, is_server, url, first_url,
  find_tcp, tcp_or_first, choose_url, get_discovery_url_from_application_description,
}

abbrev pub Listed : FilterType → String → List String → Type 0
Listed FilterType.include item items = Elem item items
Listed FilterType.exclude item items = Elem item items → ⊥

-- A list of names to include has the name, one of names to exclude has it not; no list has no say.
abbrev pub IsIncluded : Option FilterList → String → Type 0
IsIncluded none item = Unit
IsIncluded (some l) item = Listed l.action item l.items

module _ (is_tcp : String → Bool) where
  -- The first tcp URL, or else the first URL.
  abbrev pub IsPreferred : List String → String → Type 0
  IsPreferred us u =
      ((before : List String) × (after : List String) × (us ≡ before ++ u ∷ after)
        × (is_tcp u ≡ true)
        × All (λ v. is_tcp v ≡ false) before)
      ⊎ (All (λ v. is_tcp v ≡ false) us × ((rest : List String) × (us ≡ u ∷ rest)))

  -- The application is a server that the filter includes, and the URL is the preferred one of its own.
  abbrev pub IsChosen : Option FilterList → ApplicationDescription → String → Type 0
  IsChosen filter_list app u =
      (app.application_type ≡ ApplicationType.server)
      × IsIncluded filter_list app.application_name
      × ((us : List String) × (app.discovery_urls ≡ some us) × IsPreferred us u)

any-Elem : (x : String) (xs : List String) → (any (λ i. i == x) xs ≡ true) ↔ Elem x xs
any-Elem x [] = (λ h. cc, λ e. elim e [ ])
any-Elem x (y ∷ ys) = grind (arith, any-Elem x ys, eq_iff y x)

pub should_include_iff :
    (l : Option FilterList) (item : String) → (should_include l item ≡ true) ↔ IsIncluded l item
unfolding should_include
should_include_iff none item = (λ h. tt, λ h. refl)
should_include_iff (some l) item = go l.action (any-Elem item l.items)
  where
    go :
        (a : FilterType)
        → (any (λ i. i == item) l.items ≡ true) ↔ Elem item l.items
        → (includes a (any (λ i. i == item) l.items) ≡ true) ↔ Listed a item l.items
    go FilterType.include h = h
    go FilterType.exclude (to, from) = elim (Bool-cases (any (λ i. i == item) l.items)) [
      | inl e ↦ rw e (λ h. cc, λ h. absurd (h (to e)))
      | inr e ↦ rw e (λ h i. let f = from i in cc, λ h. refl)
    ]

module _ (is_tcp : String → Bool) where
  find_tcp-first :
      (before after : List String) (u : String)
      → is_tcp u ≡ true
      → All (λ v. is_tcp v ≡ false) before
      → find_tcp is_tcp (before ++ u ∷ after) ≡ some u
  unfolding find_tcp
  find_tcp-first [] after u t h = rw t refl
  find_tcp-first (v ∷ before) after u t (f, h) = rw f (find_tcp-first before after u t h)

  find_tcp-none : (us : List String) → All (λ v. is_tcp v ≡ false) us → find_tcp is_tcp us ≡ none
  unfolding find_tcp
  find_tcp-none [] h = refl
  find_tcp-none (v ∷ us) (f, h) = rw f (find_tcp-none us h)

  find_tcp-cases :
      (us : List String)
      → ((u : String) × (before : List String) × (after : List String) × (find_tcp is_tcp us
            ≡ some u)
          × (us ≡ before ++ u ∷ after)
          × (is_tcp u ≡ true)
          × All (λ v. is_tcp v ≡ false) before)
        ⊎ ((find_tcp is_tcp us ≡ none) × All (λ v. is_tcp v ≡ false) us)
  unfolding find_tcp
  find_tcp-cases [] = inr (refl, tt)
  find_tcp-cases (v ∷ us) = elim (Bool-cases (is_tcp v)) [
    | inl e ↦ inl (v, [], us, rw e refl, refl, e, tt)
    | inr e ↦ elim (find_tcp-cases us) [
      | inl (u, before, after, f, same, t, h) ↦
          inl (u, v ∷ before, after, rw e f, ap (λ xs. v ∷ xs) same, t, (e, h))
      | inr (f, h) ↦ inr (rw e f, (e, h))
    ]
  ]

  url_injective : {u v : String} → url u ≡ url v → u ≡ v
  url_injective e = cc

  tcp_or_first_iff :
      (us : List String) (u : String)
      → (tcp_or_first is_tcp (find_tcp is_tcp us) us ≡ url u) ↔ IsPreferred is_tcp us u
  tcp_or_first_iff us u = (to, from)
    where
      first : (us : List String) → first_url us ≡ url u → (rest : List String) × (us ≡ u ∷ rest)
      first [] h = cc
      first (v ∷ rest) h = (rest, ap (λ x. x ∷ rest) (url_injective h))

      to : tcp_or_first is_tcp (find_tcp is_tcp us) us ≡ url u → IsPreferred is_tcp us u
      to h = elim (find_tcp-cases us) [
        | inl (v, before, after, f, same, t, n) ↦
            let w : v ≡ u = url_injective (ap (λ o. tcp_or_first is_tcp o us) (sym f) ∙ h) in
            inl (
              before,
              after,
              same ∙ ap (λ x. before ++ x ∷ after) w,
              subst (λ x. is_tcp x ≡ true) w t,
              n,
            )
        | inr (f, n) ↦ inr (n, first us (ap (λ o. tcp_or_first is_tcp o us) (sym f) ∙ h))
      ]

      from : IsPreferred is_tcp us u → tcp_or_first is_tcp (find_tcp is_tcp us) us ≡ url u
      from (inl (before, after, same, t, n)) =
          ap (λ o. tcp_or_first is_tcp o us)
            (ap (find_tcp is_tcp) same ∙ find_tcp-first before after u t n)
      from (inr (n, (rest, same))) =
          ap (λ o. tcp_or_first is_tcp o us) (find_tcp-none us n) ∙ ap first_url same

  choose_iff :
      (o : Option (List String)) (u : String)
      → (choose_url is_tcp o ≡ url u)
        ↔ ((us : List String) × (o ≡ some us) × IsPreferred is_tcp us u)
  choose_iff none u = (λ h. cc, λ (us, e, h). cc)
  choose_iff (some us) u = (
    λ h. (us, refl, (tcp_or_first_iff us u).0 h),
    λ (vs, e, h).
        let same : vs ≡ us = cc in
        (tcp_or_first_iff us u).1 (subst (λ x. IsPreferred is_tcp x u) same h),
  )

  -- A URL is chosen of an application exactly if the application is a server which the filter includes by
  -- its name, and the URL is its first tcp URL or, if it has none, its first one.
  pub get_discovery_url_iff :
      (filter_list : Option FilterList) (app : ApplicationDescription) (u : String)
      → (get_discovery_url_from_application_description is_tcp app filter_list ≡ url u)
        ↔ IsChosen is_tcp filter_list app u
  unfolding get_discovery_url_from_application_description
  get_discovery_url_iff l app u = elim (Bool-cases (is_server app.application_type)) [
    | inr e ↦ rw e (λ h. cc, λ (t, i, c). let f = ap is_server t in cc)
    | inl e ↦ elim (Bool-cases (should_include l app.application_name)) [
      | inr f ↦
          rw (e, f)
            (λ h. cc, λ (t, i, c). let g = (should_include_iff l app.application_name).1 i in cc)
      | inl f ↦
          rw (e, f)
            (
              λ h. (
                server_type app.application_type e,
                (should_include_iff l app.application_name).0 f,
                (choose_iff app.discovery_urls u).0 h,
              ),
              λ (t, i, c). (choose_iff app.discovery_urls u).1 c,
            )
    ]
  ]
    where
      server_type : (t : ApplicationType) → is_server t ≡ true → t ≡ ApplicationType.server
      server_type ApplicationType.server h = refl
      server_type _ h = cc
