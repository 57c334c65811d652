-- ===== src/Agent/Opcua/Discovered.antt =====
-- The discovery URLs that are found over all discovery servers.
use mathlib.Core.Path.{subst}
use akri.Base.{
  String, Bool, true, Option, none, some, List, [], ◌∷◌, ◌++◌, Result, ok, err, ◌==◌, eq_iff, ◌≡◌,
  ◌≢◌, ◌↔◌, refl, sym, ◌∙◌, ap, arith, All, Elem, ◌⊎◌, inl, inr, Bool-cases,
}
use akri.Kube.Types.{FilterList}
use akri.Agent.Opcua.{
  ApplicationDescription, Choice, panics, ignored, url, find_tcp, tcp_or_first, choose_url,
  is_server, should_include, get_discovery_url_from_application_description, add_choice,
  choose_urls, append, urls_at, collect_urls, cons_unless_same, dedup, dedup_found,
  get_discovery_urls,
}
use akri.Agent.Opcua.Chosen.{IsChosen, get_discovery_url_iff}

-- No URL stands beside its equal.
abbrev pub HasNoTwins : List String → Type 0
HasNoTwins [] = Unit
HasNoTwins (x ∷ []) = Unit
HasNoTwins (x ∷ y ∷ ys) = (x ≢ y) × HasNoTwins (y ∷ ys)

-- If the application names URLs, it names one at least.
abbrev pub HasUrls : ApplicationDescription → Type 0
HasUrls app = app.discovery_urls ≢ some []

cons-HasNoTwins :
    (x : String) (ys : List String) → HasNoTwins ys → HasNoTwins (cons_unless_same x ys)
cons-HasNoTwins x [] h = tt
cons-HasNoTwins x (y ∷ ys) h = elim (Bool-cases (x == y)) [
  | inl e ↦ rw e h
  | inr e ↦ rw e ((λ same. ground (arith, eq_iff x y)), h)
]

dedup-HasNoTwins : (xs : List String) → HasNoTwins (dedup xs)
unfolding dedup
dedup-HasNoTwins [] = tt
dedup-HasNoTwins (x ∷ xs) = cons-HasNoTwins x (dedup xs) (dedup-HasNoTwins xs)

cons_iff : (u x : String) (ys : List String) → Elem u (cons_unless_same x ys) ↔ Elem u (x ∷ ys)
cons_iff u x [] = (λ h. h, λ h. h)
cons_iff u x (y ∷ ys) = elim (Bool-cases (x == y)) [
  | inl e ↦ rw e (λ h. inr h, λ h. elim h [ inl same ↦ inl (same ∙ (eq_iff x y).0 e) | inr i ↦ i ])
  | inr e ↦ rw e (λ h. h, λ h. h)
]

dedup_iff : (u : String) (xs : List String) → Elem u (dedup xs) ↔ Elem u xs
unfolding dedup
dedup_iff u [] = (λ h. h, λ h. h)
dedup_iff u (x ∷ xs) =
    let (to, from) = cons_iff u x (dedup xs) in
    let (down, lift) = dedup_iff u xs in
    (
      λ h. elim (to h) [ inl same ↦ inl same | inr i ↦ inr (down i) ],
      λ h. from (elim h [ inl same ↦ inl same | inr i ↦ inr (lift i) ]),
    )

append_iff : (u : String) (xs ys : List String) → Elem u (xs ++ ys) ↔ (Elem u xs ⊎ Elem u ys)
append_iff u [] ys = (λ h. inr h, λ h. elim h [ inl e ↦ elim e [ ] | inr i ↦ i ])
append_iff u (x ∷ xs) ys = grind (arith, append_iff u xs ys)

module _ (is_tcp : String → Bool) (l : Option FilterList) where
  abbrev choice_of : ApplicationDescription → Choice
  choice_of app = get_discovery_url_from_application_description is_tcp app l

  tcp_or_first-ne :
      (o : Option String) (us : List String) → us ≢ [] → tcp_or_first is_tcp o us ≢ panics
  tcp_or_first-ne (some v) us h e = cc
  tcp_or_first-ne none [] h e = h refl
  tcp_or_first-ne none (v ∷ us) h e = cc

  choose-ne : (o : Option (List String)) → o ≢ some [] → choose_url is_tcp o ≢ panics
  choose-ne none h e = cc
  choose-ne (some us) h e = tcp_or_first-ne (find_tcp is_tcp us) us (λ n. h (ap some n)) e

  choice-ne : (app : ApplicationDescription) → HasUrls app → choice_of app ≢ panics
  unfolding get_discovery_url_from_application_description
  choice-ne app h = elim (Bool-cases (is_server app.application_type)) [
    | inr e ↦ rw e (λ f. cc)
    | inl e ↦ elim (Bool-cases (should_include l app.application_name)) [
      | inr f ↦ rw (e, f) (λ g. cc)
      | inl f ↦ rw (e, f) (choose-ne app.discovery_urls h)
    ]
  ]

  -- The URL is chosen of one of the applications.
  abbrev IsChosenOf : List ApplicationDescription → String → Type 0
  IsChosenOf apps u = (app : ApplicationDescription) × Elem app apps × IsChosen is_tcp l app u

  choose_urls_lem :
      (apps : List ApplicationDescription)
      → All HasUrls apps
      → (us : List String) × (choose_urls is_tcp l apps ≡ some us)
        × ((u : String) → Elem u us ↔ IsChosenOf apps u)
  unfolding choose_urls
  choose_urls_lem [] h = ([], refl, λ u. (λ e. elim e [ ], λ (app, i, c). elim i [ ]))
  choose_urls_lem (app ∷ apps) (h, hs) =
      go (choice_of app) refl (choice-ne app h) (choose_urls_lem apps hs)
    where
      Goal : Type 0
      Goal =
          (us : List String) × (add_choice (choice_of app) (choose_urls is_tcp l apps) ≡ some us)
          × ((u : String) → Elem u us ↔ IsChosenOf (app ∷ apps) u)

      go :
          (c : Choice)
          → choice_of app ≡ c
          → choice_of app ≢ panics
          → ((us : List String) × (choose_urls is_tcp l apps ≡ some us)
              × ((u : String) → Elem u us ↔ IsChosenOf apps u))
          → Goal
      go panics e n rest = absurd (n e)
      go ignored e n (us, same, member) = (
        us,
        ap (λ c. add_choice c (choose_urls is_tcp l apps)) e ∙ same,
        λ u. (
          λ i. let (a, j, c) = (member u).0 i in (a, inr j, c),
          λ (a, j, c). elim j [
            | inl q ↦
                let f =
                  (get_discovery_url_iff is_tcp l app u).1
                    (subst (λ x. IsChosen is_tcp l x u) q c) in
                cc
            | inr k ↦ (member u).1 (a, k, c)
          ],
        ),
      )
      go (url v) e n (us, same, member) = (
        v ∷ us,
        ap (λ c. add_choice c (choose_urls is_tcp l apps)) e ∙ ap (add_choice (url v)) same,
        λ u. (
          λ i. elim i [
            | inl q ↦ (app, inl refl, (get_discovery_url_iff is_tcp l app u).0 (e ∙ ap url (sym q)))
            | inr j ↦ let (a, k, c) = (member u).0 j in (a, inr k, c)
          ],
          λ (a, j, c). elim j [
            | inl q ↦
                let f =
                  (get_discovery_url_iff is_tcp l app u).1
                    (subst (λ x. IsChosen is_tcp l x u) q c) in
                let g : url u ≡ url v = sym f ∙ e in inl cc
            | inr k ↦ inr ((member u).1 (a, k, c))
          ],
        ),
      )

  module _ (connects : String → Bool)
      (find_servers : String → Result (List ApplicationDescription)) where
    -- The discovery server is reached and names an application of which the URL is chosen.
    abbrev pub IsNamedAt : String → String → Type 0
    IsNamedAt lds u =
        (connects lds ≡ true)
        × ((apps : List ApplicationDescription) × (find_servers lds ≡ ok apps)
            × ((app : ApplicationDescription) × Elem app apps × IsChosen is_tcp l app u))

    -- Whatever a discovery server names has a URL, if it names URLs.
    abbrev pub NamesUrls : String → Type 0
    NamesUrls lds =
        (apps : List ApplicationDescription) → find_servers lds ≡ ok apps → All HasUrls apps

    urls_at_lem :
        (lds : String)
        → NamesUrls lds
        → (us : List String) × (urls_at is_tcp connects find_servers l lds ≡ some us)
          × ((u : String) → Elem u us ↔ IsNamedAt lds u)
    urls_at_lem lds h = elim (Bool-cases (connects lds)) [
      | inr e ↦ ([], rw e refl, λ u. (λ i. elim i [ ], λ (c, rest). cc))
      | inl e ↦ go (find_servers lds) refl e
    ]
      where
        go :
            (r : Result (List ApplicationDescription))
            → find_servers lds ≡ r
            → connects lds ≡ true
            → (us : List String) × (urls_at is_tcp connects find_servers l lds ≡ some us)
              × ((u : String) → Elem u us ↔ IsNamedAt lds u)
        go (err m) f e = ([], rw (e, f) refl, λ u. (λ i. elim i [ ], λ (c, (apps, g, _)). cc))
        go (ok apps) f e =
            let (us, same, member) = choose_urls_lem apps (h apps f) in
            (
              us,
              rw (e, f) same,
              λ u. (
                λ i. (e, (apps, f, (member u).0 i)),
                λ (c, (other, g, n)).
                    let q : other ≡ apps = cc in (member u).1 (subst (λ x. IsChosenOf x u) q n),
              ),
            )

    collect_lem :
        (lds_urls : List String)
        → All NamesUrls lds_urls
        → (us : List String) × (collect_urls is_tcp connects find_servers l lds_urls ≡ some us)
          × ((u : String) → Elem u us ↔ ((lds : String) × Elem lds lds_urls × IsNamedAt lds u))
    unfolding collect_urls
    collect_lem [] h = ([], refl, λ u. (λ i. elim i [ ], λ (lds, i, n). elim i [ ]))
    collect_lem (lds ∷ rest) (h, hs) =
        let (us, a, here) = urls_at_lem lds h in
        let (vs, b, there) = collect_lem rest hs in
        (
          us ++ vs,
          ap (λ o. append o (collect_urls is_tcp connects find_servers l rest)) a
              ∙ ap (append (some us)) b,
          λ u. (
            λ i. elim ((append_iff u us vs).0 i) [
              | inl j ↦ (lds, inl refl, (here u).0 j)
              | inr j ↦ let (x, k, n) = (there u).0 j in (x, inr k, n)
            ],
            λ (x, i, n). elim i [
              | inl q ↦ (append_iff u us vs).1 (inl ((here u).1 (subst (λ y. IsNamedAt y u) q n)))
              | inr j ↦ (append_iff u us vs).1 (inr ((there u).1 (x, j, n)))
            ],
          ),
        )

    -- If no discovery server names an application with an empty list of URLs, the search ends with URLs,
    -- none beside its equal, and they are exactly those that are chosen of the applications which the
    -- reachable discovery servers name.
    pub get_discovery_urls_iff :
        (lds_urls : List String)
        → All NamesUrls lds_urls
        → (us : List String) × (get_discovery_urls is_tcp connects find_servers lds_urls l
            ≡ some us)
          × HasNoTwins us
          × ((u : String) → Elem u us ↔ ((lds : String) × Elem lds lds_urls × IsNamedAt lds u))
    unfolding get_discovery_urls
    get_discovery_urls_iff lds_urls h =
        let (us, same, member) = collect_lem lds_urls h in
        (
          dedup us,
          ap dedup_found same,
          dedup-HasNoTwins us,
          λ u. (λ i. (member u).0 ((dedup_iff u us).0 i), λ n. (dedup_iff u us).1 ((member u).1 n)),
        )
