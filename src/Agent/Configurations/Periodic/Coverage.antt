-- ===== src/Agent/Configurations/Periodic/Coverage.antt =====
-- Which devices a round of the discovery builds device plugins for.
use mathlib.Core.Path.{subst}
use akri.Base.{
  String, Bool, true, List, [], ◌∷◌, Result, ok, err, M, map, select, not, for_each, All, Elem,
  All-map, bind_result, ◌==◌, eq_iff, ◌≡◌, refl, sym, ap, ◌∙◌, ◌⊎◌, inl, inr, Bool-cases, arith,
}
use akri.Base.HashMap.{HashMap, insert, contains_key, contains_key-insert}
use akri.Base.Loops.{bind-eq-ok, for_each-All, ok_injective}
use akri.Kube.Api.{Trace, Done, KubeInterface, built_device_plugin}
use akri.Agent.DevicePlugin.{InstanceMap}
use akri.Agent.DevicePlugin.Naming.{get_device_instance_name}
use akri.Agent.Connectivity.{Discovery, DiscoveryResult, update_one, update_connectivity_status}
use akri.Agent.Configurations.Periodic.{
  Round, collect_visible, currently_visible_instances, beside, build_new, discovery_round,
}

module _ (config_name : String) where
  abbrev name_of : DiscoveryResult → String
  name_of d = get_device_instance_name d.digest config_name

  abbrev IsNamed : HashMap DiscoveryResult → Type 0
  IsNamed = All (λ e. e.0 ≡ name_of e.1)

  insert-IsNamed :
      (d : DiscoveryResult) (m : HashMap DiscoveryResult)
      → IsNamed m
      → IsNamed (insert (name_of d) d m)
  unfolding insert
  insert-IsNamed d [] h = (refl, tt)
  insert-IsNamed d ((j, w) ∷ m) (p, h) = elim (Bool-cases (j == name_of d)) [
    | inl e ↦ rw e (refl, h)
    | inr e ↦ rw e (p, insert-IsNamed d m h)
  ]

  collect-IsNamed :
      (m : HashMap DiscoveryResult) (results : List DiscoveryResult)
      → IsNamed m
      → IsNamed (collect_visible config_name m results)
  unfolding collect_visible
  collect-IsNamed m [] h = h
  collect-IsNamed m (d ∷ results) h =
      collect-IsNamed (insert (name_of d) d m) results (insert-IsNamed d m h)

  collect_keeps :
      (k : String) (m : HashMap DiscoveryResult) (results : List DiscoveryResult)
      → contains_key k m ≡ true
      → contains_key k (collect_visible config_name m results) ≡ true
  unfolding collect_visible
  collect_keeps k m [] h = h
  collect_keeps k m (d ∷ results) h =
      collect_keeps k (insert (name_of d) d m) results
        (ground (arith, contains_key-insert (name_of d) k d m))

  collect-All :
      (m : HashMap DiscoveryResult) (results : List DiscoveryResult)
      → All (λ d. contains_key (name_of d) (collect_visible config_name m results) ≡ true) results
  unfolding collect_visible
  collect-All m [] = tt
  collect-All m (d ∷ results) = (
    collect_keeps (name_of d) (insert (name_of d) d m) results (
        ground
          (arith, contains_key-insert (name_of d) (name_of d) d m, eq_iff (name_of d) (name_of d))),
    collect-All (insert (name_of d) d m) results,
  )

  -- A visible name stands in the map, or has a result that is new.
  new_of_visible :
      (P : String → Type 0) (known : InstanceMap) (visible : HashMap DiscoveryResult)
      → IsNamed visible
      → All
          (λ d. P (name_of d))
          (map (λ e. e.1) (select (λ e. not (contains_key e.0 known)) visible))
      → All (λ e. (contains_key e.0 known ≡ true) ⊎ P e.0) visible
  new_of_visible P known [] h a = tt
  new_of_visible P known ((j, d) ∷ visible) (n, h) a = elim (Bool-cases (contains_key j known)) [
    | inl e ↦ (inl e, new_of_visible P known visible h (rw e at a))
    | inr e ↦
        let (p, rest) = rw e at a in
        (inr (subst P (sym n) p), new_of_visible P known visible h rest)
  ]

key_of_All :
    (P : String → Type 0) (k : String) (m : HashMap DiscoveryResult)
    → All (λ e. P e.0) m
    → contains_key k m ≡ true
    → P k
unfolding contains_key
key_of_All P k [] h g = cc
key_of_All P k ((j, w) ∷ m) (p, h) g = elim (Bool-cases (j == k)) [
  | inl e ↦ subst P ((eq_iff j k).0 e) p
  | inr e ↦ key_of_All P k m h (ground arith)
]

module _ (kube : KubeInterface) (config_name ns : String) (shared : Bool) where
  update_results :
      (visible : HashMap DiscoveryResult) (s : Discovery) (results : List DiscoveryResult)
      → (update_connectivity_status kube ns shared visible s).0 ≡ ok results
      → results ≡ map (λ e. e.1) (select (λ e. not (contains_key e.0 s.instance_map)) visible)
  unfolding update_connectivity_status
  update_results visible s results o =
      let found = map (λ e. e.1) (select (λ e. not (contains_key e.0 s.instance_map)) visible) in
      let last : Unit {0} → M Discovery (List DiscoveryResult) = λ _ w. (ok found, w) in
      let (b, d, next) =
        bind-eq-ok
          (for_each s.instance_map
            (λ e. update_one kube ns shared e.0 (contains_key e.0 visible) e.1.connectivity_status)
            s)
          last o in
      ok_injective (sym o ∙ ap (λ q. q.0) next)

  abbrev IsBuilt : String → Trace → Type 0
  IsBuilt name t = (done : Done) × Elem (built_device_plugin name done) t

  abbrev update_and_build :
      (DiscoveryResult → Done) → List DiscoveryResult → Discovery → Result (Unit {0}) × Discovery
  update_and_build built results s =
      bind_result
        (update_connectivity_status kube ns shared (currently_visible_instances config_name results)
          s)
        λ new. for_each new (build_new kube config_name ns shared built)

  build-IsBuilt :
      (built : DiscoveryResult → Done) (new : List DiscoveryResult) (s : Discovery)
      → (for_each new (build_new kube config_name ns shared built) s).0 ≡ ok tt
      → All
          (λ d.
            IsBuilt
              (name_of config_name d)
              (for_each new (build_new kube config_name ns shared built) s).1.trace)
          new
  build-IsBuilt built =
      for_each-All (λ d w. IsBuilt (name_of config_name d) w.trace)
        (build_new kube config_name ns shared built) (λ d w h. (built d, inl refl))
        (λ d e w (done, there). (done, inr there))

  update_and_build-Covers :
      (built : DiscoveryResult → Done) (results : List DiscoveryResult) (s : Discovery)
      → (update_and_build built results s).0 ≡ ok tt
      → All
          (λ d.
            (contains_key (name_of config_name d) s.instance_map ≡ true)
            ⊎ IsBuilt (name_of config_name d) (update_and_build built results s).1.trace)
          results
  update_and_build-Covers built results s o =
      let visible = currently_visible_instances config_name results in
      let (new, e, next) =
        bind-eq-ok (update_connectivity_status kube ns shared visible s)
          (λ new. for_each new (build_new kube config_name ns shared built)) o in
      let w = (update_connectivity_status kube ns shared visible s).1 in
      let made = build-IsBuilt built new w (ap (λ r. r.0) (sym next) ∙ o) in
      let each =
        new_of_visible config_name
          (λ n. IsBuilt n (for_each new (build_new kube config_name ns shared built) w).1.trace)
          s.instance_map visible (collect-IsNamed config_name [] results tt)
          (subst
            (All (λ d.
              IsBuilt (name_of config_name d)
                (for_each new (build_new kube config_name ns shared built) w).1.trace))
            (update_results visible s new e) made) in
      subst
        (λ r.
          All
            (λ d.
              (contains_key (name_of config_name d) s.instance_map ≡ true)
              ⊎ IsBuilt (name_of config_name d) r.1.trace)
            results)
        (sym next)
        (All-map
          (λ d there.
            key_of_All
              (λ n.
                (contains_key n s.instance_map ≡ true)
                ⊎ IsBuilt n (for_each new (build_new kube config_name ns shared built) w).1.trace)
              (name_of config_name d) visible each there)
          results (collect-All config_name [] results))

  -- After a round without an error, each device that the handler discovered was known to the map when
  -- the statuses were updated, or a device plugin was built for an Instance of its name, whether or
  -- not that succeeded.
  pub discovery_round-Covers :
      (round : Round) (s : Discovery) (results : List DiscoveryResult)
      → round.discovered ≡ ok results
      → (discovery_round kube config_name ns shared round s).0 ≡ ok tt
      → All
          (λ d.
            let name = get_device_instance_name d.digest config_name in
            (contains_key name (round.others s.instance_map) ≡ true)
            ⊎ ((done : Done) × Elem
                  (built_device_plugin name done)
                  (discovery_round kube config_name ns shared round s).1.trace))
          results
  unfolding discovery_round
  discovery_round-Covers round s results q o = go round.discovered q o
    where
      after : Result (List DiscoveryResult) → Result (Unit {0}) × Discovery
      after r =
          bind_result (r, (beside round.others s).1) λ results. update_and_build round.built results

      go :
          (r : Result (List DiscoveryResult))
          → r ≡ ok results
          → (after r).0 ≡ ok tt
          → All
              (λ d.
                (contains_key (name_of config_name d) (round.others s.instance_map) ≡ true)
                ⊎ IsBuilt (name_of config_name d) (after r).1.trace)
              results
      go (err e) q o = cc
      go (ok found) q o =
          subst
            (λ l.
              All
                (λ d.
                  (contains_key (name_of config_name d) (round.others s.instance_map) ≡ true)
                  ⊎ IsBuilt (name_of config_name d) (after (ok found)).1.trace)
                l)
            (ok_injective q) (update_and_build-Covers round.built found (beside round.others s).1 o)
