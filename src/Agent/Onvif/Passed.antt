-- ===== src/Agent/Onvif/Passed.antt =====
-- The cameras that pass the filters.
use mathlib.Core.Path.{subst}
use akri.Base.{
  String, Bool, true, false, Option, none, some, List, [], ◌∷◌, length, select, not, nat_eq, Result,
  ok, err, ◌≡◌, ◌↔◌, refl, sym, ap, arith, Elem, inl, inr, Bool-cases,
}
use akri.Kube.Types.{FilterType, FilterList, OnvifDiscoveryHandlerConfig}
use akri.Agent.Connectivity.{DiscoveryResult}
use akri.Agent.Onvif.{
  leaves_out, matches_some, execute_filter, camera_result, with_scopes, with_addresses, push_result,
  apply_filters,
}

no_selected :
    {A : Type 0} (p : A → Bool) (xs : List A)
    → (not (nat_eq (length (select p xs)) 0) ≡ true) ↔ ((x : A) × Elem x xs × (p x ≡ true))
no_selected p [] = (λ h. cc, λ (x, i, h). elim i [ ])
no_selected p (x ∷ xs) = elim (Bool-cases (p x)) [
  | inl e ↦ rw e (λ h. (x, inl refl, e), λ h. ground arith)
  | inr e ↦ rw e (
    λ h. let (y, i, q) = (no_selected p xs).0 h in (y, inr i, q),
    λ (y, i, q). elim i [
      | inl same ↦ let f = ap p same in cc
      | inr j ↦ (no_selected p xs).1 (y, j, q)
    ],
  )
]

module _ (contains : String → String → Bool) where
  -- One of the texts contains one of the patterns.
  abbrev pub ContainsOne : List String → List String → Type 0
  ContainsOne patterns texts =
      (pattern : String) × Elem pattern patterns
      × ((text : String) × Elem text texts × (contains text pattern ≡ true))

  abbrev pub PassesAction : FilterType → List String → List String → Type 0
  PassesAction FilterType.include patterns texts = ContainsOne patterns texts
  PassesAction FilterType.exclude patterns texts = ContainsOne patterns texts → ⊥

  -- No filter, one of patterns to include of which one is found, or to exclude of which none is.
  abbrev pub Passes : Option FilterList → List String → Type 0
  Passes none texts = Unit
  Passes (some l) texts = PassesAction l.action l.items texts

  found_iff :
      (items texts : List String)
      → (not (nat_eq (length (select (matches_some contains texts) items)) 0) ≡ true)
        ↔ ContainsOne items texts
  found_iff items texts =
      let (to, from) = no_selected (matches_some contains texts) items in
      (
        λ h. let (p, i, m) = to h in (p, i, (no_selected (λ item. contains item p) texts).0 m),
        λ (p, i, m). from (p, i, (no_selected (λ item. contains item p) texts).1 m),
      )

  pub execute_filter_iff :
      (o : Option FilterList) (texts : List String)
      → (execute_filter contains o texts ≡ false) ↔ Passes o texts
  unfolding execute_filter
  execute_filter_iff none texts = (λ h. tt, λ h. refl)
  execute_filter_iff (some l) texts =
      go l.action (nat_eq (length (select (matches_some contains texts) l.items)) 0)
        (found_iff l.items texts)
    where
      go :
          (a : FilterType) (b : Bool)
          → (not b ≡ true) ↔ ContainsOne l.items texts
          → (leaves_out a b ≡ false) ↔ PassesAction a l.items texts
      go FilterType.include true (to, from) = (λ h. cc, λ h. let f = from h in cc)
      go FilterType.include false (to, from) = (λ h. to refl, λ h. refl)
      go FilterType.exclude true (to, from) = (λ h c. let f = from c in cc, λ h. refl)
      go FilterType.exclude false (to, from) = (λ h. cc, λ h. absurd (h (to refl)))

  module _ (get_device_ip_and_mac_address : String → Result (String × String))
      (get_device_scopes : String → Result (List String)) (digest_of : String → String)
      (node_name : String) (config : OnvifDiscoveryHandlerConfig) where
    -- The camera answers both queries and passes all three filters, and this is its result.
    abbrev pub IsFound : String → DiscoveryResult → Type 0
    IsFound uri r =
        (ip : String) × (mac : String) × (scopes : List String) × (get_device_ip_and_mac_address uri
          ≡ ok (ip, mac))
        × (get_device_scopes uri ≡ ok scopes)
        × Passes config.ip_addresses (ip ∷ [])
        × Passes config.mac_addresses (mac ∷ [])
        × Passes config.scopes scopes
        × (r ≡ camera_result digest_of node_name uri ip mac)

    abbrev result_of : String → Option DiscoveryResult
    result_of uri =
        with_addresses contains get_device_ip_and_mac_address get_device_scopes digest_of node_name
          config uri (get_device_ip_and_mac_address uri)

    some_injective :
        {x y : DiscoveryResult} → Path (Option DiscoveryResult) (some x) (some y) → x ≡ y
    some_injective e = cc

    scopes_iff :
        (uri ip mac : String) (r : DiscoveryResult) (a : Result (List String))
        → (with_scopes contains get_device_ip_and_mac_address get_device_scopes digest_of node_name
              config uri ip mac a
            ≡ some r)
          ↔ ((scopes : List String) × (a ≡ ok scopes)
              × Passes config.scopes scopes
              × (r ≡ camera_result digest_of node_name uri ip mac))
    scopes_iff uri ip mac r (err e) = (λ h. cc, λ (s, h, p, q). cc)
    scopes_iff uri ip mac r (ok scopes) =
        elim (Bool-cases (execute_filter contains config.scopes scopes)) [
          | inl e ↦ rw e (
            λ h. cc,
            λ (s, h, p, q).
                let same : s ≡ scopes = cc in
                let f =
                  (execute_filter_iff config.scopes scopes).1
                    (subst (Passes config.scopes) same p) in
                cc,
          )
          | inr e ↦ rw e (
            λ h. (
              scopes,
              refl,
              (execute_filter_iff config.scopes scopes).0 e,
              sym (some_injective h),
            ),
            λ (s, h, p, q). ap some (sym q),
          )
        ]

    addresses_iff :
        (uri : String) (r : DiscoveryResult) (a : Result (String × String))
        → (with_addresses contains get_device_ip_and_mac_address get_device_scopes digest_of
              node_name config uri a
            ≡ some r)
          ↔ ((ip : String) × (mac : String) × (scopes : List String) × (a ≡ ok (ip, mac))
              × (get_device_scopes uri ≡ ok scopes)
              × Passes config.ip_addresses (ip ∷ [])
              × Passes config.mac_addresses (mac ∷ [])
              × Passes config.scopes scopes
              × (r ≡ camera_result digest_of node_name uri ip mac))
    addresses_iff uri r (err e) = (λ h. cc, λ (ip, mac, scopes, h, s, p, q, t, same). cc)
    addresses_iff uri r (ok (ip, mac)) =
        elim (Bool-cases (execute_filter contains config.ip_addresses (ip ∷ []))) [
          | inl e ↦ rw e (
            λ h. cc,
            λ (x, y, scopes, h, s, p, q, t, same).
                let pair : Path (String × String) (x, y) (ip, mac) = cc in
                let f =
                  (execute_filter_iff config.ip_addresses (ip ∷ [])).1
                    (subst (λ z. Passes config.ip_addresses (z.0 ∷ [])) pair p) in
                cc,
          )
          | inr e ↦ elim (Bool-cases (execute_filter contains config.mac_addresses (mac ∷ []))) [
            | inl f ↦
                rw (e, f)
                  (
                    λ h. cc,
                    λ (x, y, scopes, h, s, p, q, t, same).
                        let pair : Path (String × String) (x, y) (ip, mac) = cc in
                        let g =
                          (execute_filter_iff config.mac_addresses (mac ∷ [])).1
                            (subst (λ z. Passes config.mac_addresses (z.1 ∷ [])) pair q) in
                        cc,
                  )
            | inr f ↦
                rw (e, f)
                  (
                    λ h.
                        let (scopes, s, t, same) =
                          (scopes_iff uri ip mac r (get_device_scopes uri)).0 h in
                        (
                          ip,
                          mac,
                          scopes,
                          refl,
                          s,
                          (execute_filter_iff config.ip_addresses (ip ∷ [])).0 e,
                          (execute_filter_iff config.mac_addresses (mac ∷ [])).0 f,
                          t,
                          same,
                        ),
                    λ (x, y, scopes, h, s, p, q, t, same).
                        let pair : Path (String × String) (x, y) (ip, mac) = cc in
                        (scopes_iff uri ip mac r (get_device_scopes uri)).1 (
                          scopes,
                          s,
                          t,
                          subst (λ z. r ≡ camera_result digest_of node_name uri z.0 z.1) pair same,
                        ),
                  )
          ]
        ]

    -- The results are exactly those of the cameras among the given ones which answer both queries and pass
    -- the filters for addresses and scopes: one pattern of an including filter is part of a value, and
    -- none of an excluding one is.
    pub apply_filters_iff :
        (uris : List String) (r : DiscoveryResult)
        → Elem r (
            apply_filters contains get_device_ip_and_mac_address get_device_scopes digest_of
              node_name config uris)
          ↔ ((uri : String) × Elem uri uris × IsFound uri r)
    unfolding apply_filters
    apply_filters_iff [] r = (λ i. elim i [ ], λ (u, i, f). elim i [ ])
    apply_filters_iff (uri ∷ uris) r =
        go (result_of uri) (addresses_iff uri r (get_device_ip_and_mac_address uri))
          (apply_filters_iff uris r)
      where
        rest : List DiscoveryResult
        rest =
            apply_filters contains get_device_ip_and_mac_address get_device_scopes digest_of
              node_name config uris

        go :
            (o : Option DiscoveryResult)
            → (o ≡ some r) ↔ IsFound uri r
            → Elem r rest ↔ ((u : String) × Elem u uris × IsFound u r)
            → Elem r (push_result o rest) ↔ ((u : String) × Elem u (uri ∷ uris) × IsFound u r)
        go none (to, from) (down, lift) = (
          λ i. let (u, j, f) = down i in (u, inr j, f),
          λ (u, i, f). elim i [
            | inl same ↦ let g = from (subst (λ x. IsFound x r) same f) in cc
            | inr j ↦ lift (u, j, f)
          ],
        )
        go (some x) (to, from) (down, lift) = (
          λ i. elim i [
            | inl same ↦ (uri, inl refl, to (ap some (sym same)))
            | inr j ↦ let (u, k, f) = down j in (u, inr k, f)
          ],
          λ (u, i, f). elim i [
            | inl same ↦ inl (sym (some_injective (from (subst (λ x. IsFound x r) same f))))
            | inr j ↦ inr (lift (u, j, f))
          ],
        )
