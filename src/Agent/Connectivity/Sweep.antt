-- ===== src/Agent/Connectivity/Sweep.antt =====
-- The statuses of all Instances before and after a discovery.
use mathlib.Core.Path.{subst}
use akri.Base.{
  String, Bool, false, Option, none, some, List, [], ◌∷◌, select, map, ok, M, for_each, not, ◌==◌,
  eq_iff, ◌≡◌, refl, sym, ◌∙◌, ap, arith, inl, inr, Bool-cases,
}
use akri.Base.HashMap.{HashMap, get, contains_key, HasUniqueKeys}
use akri.Base.Loops.{bind_inv, bind-eq-ok, ok_injective}
use akri.Kube.Types.{Time}
use akri.Kube.Api.{KubeInterface}
use akri.Agent.DevicePlugin.{InstanceInfo, InstanceMap}
use akri.Agent.Connectivity.{Discovery, DiscoveryResult, update_one, update_connectivity_status}
use akri.Agent.Connectivity.Transitions.{IsTimed, Moves, arrive, update-Other, update-Moves}

not_key : (k : String) (m : InstanceMap) → get k m ≡ none → contains_key k m ≡ false
unfolding get contains_key
not_key k [] h = refl
not_key k ((j, i) ∷ m) h = ground (arith, not_key k m)

module _ (kube : KubeInterface) (ns : String) (shared : Bool) (early late : Time)
    (clock : IsTimed kube early late) where
  module _ (visible : HashMap DiscoveryResult) where
    abbrev update_entry : String × InstanceInfo → M Discovery (Unit {0})
    update_entry e =
        update_one kube ns shared e.0 (contains_key e.0 visible) e.1.connectivity_status

    loop-Other :
        (k : String) (es : InstanceMap) (s : Discovery)
        → contains_key k es ≡ false
        → get k (for_each es update_entry s).1.instance_map ≡ get k s.instance_map
    unfolding for_each contains_key
    loop-Other k [] s h = refl
    loop-Other k ((j, i) ∷ es) s h =
        let one =
          update-Other kube ns shared early late clock k (get k s.instance_map) j
            (contains_key j visible) i.connectivity_status (ground arith) s refl in
        bind_inv (λ w. get k w.instance_map ≡ get k s.instance_map) (update_entry (j, i) s)
          (λ _. for_each es update_entry) one
          (λ _. loop-Other k es (update_entry (j, i) s).1 (ground arith) ∙ one)

    loop-Moves :
        (k : String) (es : InstanceMap) (s : Discovery) (i : InstanceInfo)
        → HasUniqueKeys es
        → get k es ≡ some i
        → get k s.instance_map ≡ some i
        → (for_each es update_entry s).0 ≡ ok tt
        → Moves shared early late
            (contains_key k visible)
            (some i)
            (get k (for_each es update_entry s).1.instance_map)
    unfolding for_each get
    loop-Moves k [] s i u h g o = cc
    loop-Moves k ((j, i') ∷ es) s i (c, u) h g o =
        let (b, d, next) = bind-eq-ok (update_entry (j, i') s) (λ _. for_each es update_entry) o in
        let s1 = (update_entry (j, i') s).1 in
        elim (Bool-cases (j == k)) [
          | inl e ↦
              let same = (eq_iff j k).0 e in
              let equal : i' ≡ i = ground arith in
              let there : get j s.instance_map ≡ some i' =
                ap (λ x. get x s.instance_map) same ∙ g ∙ ap some (sym equal) in
              let one =
                update-Moves kube ns shared early late clock j (contains_key j visible)
                  i'.connectivity_status s there in
              let moved : Moves shared early late (contains_key k visible) (some i')
                  (get k s1.instance_map) =
                subst
                  (λ x.
                    Moves shared early late (contains_key x visible) (some i')
                      (get x s1.instance_map))
                  same one in
              let rest = loop-Other k es s1 (subst (λ x. contains_key x es ≡ false) same c) in
              subst
                (λ x.
                  Moves shared early late (contains_key k visible) (some x)
                    (get k (for_each ((j, i') ∷ es) update_entry s).1.instance_map))
                equal
                (arrive kube ns shared early late clock (contains_key k visible) (some i') _ _
                  (ap (λ q. get k q.1.instance_map) next ∙ rest) moved)
          | inr e ↦
              let same =
                update-Other kube ns shared early late clock k (some i) j (contains_key j visible)
                  i'.connectivity_status e s g in
              let m = loop-Moves k es s1 i u (ground arith) same (ap (λ q. q.0) (sym next) ∙ o) in
              arrive kube ns shared early late clock (contains_key k visible) (some i) _ _
                (ap (λ q. get k q.1.instance_map) next) m
        ]

    -- After a discovery that ends without an error, the entry of each Instance has moved as the status
    -- and the visibility of the Instance ask for, by the bounds of the clock's readings: it comes back
    -- online when it is seen, goes offline when it is not, and is removed when it was offline and is
    -- unshared or was so for the grace period. The results that are returned are those of the visible
    -- Instances without an entry. The map holds each Instance once.
    pub update_connectivity_status-Moves :
        (s : Discovery) (results : List DiscoveryResult)
        → HasUniqueKeys s.instance_map
        → (update_connectivity_status kube ns shared visible s).0 ≡ ok results
        → ((k : String)
            → Moves shared early late
                (contains_key k visible)
                (get k s.instance_map)
                (get k (update_connectivity_status kube ns shared visible s).1.instance_map))
          × (results ≡ map (λ e. e.1) (select (λ e. not (contains_key e.0 s.instance_map)) visible))
    unfolding update_connectivity_status
    update_connectivity_status-Moves s results u o =
        let found = map (λ e. e.1) (select (λ e. not (contains_key e.0 s.instance_map)) visible) in
        let last : Unit {0} → M Discovery (List DiscoveryResult) = λ _ w. (ok found, w) in
        let (b, d, next) = bind-eq-ok (for_each s.instance_map update_entry s) last o in
        (
          λ k. each k (get k s.instance_map) refl d (ap (λ q. get k q.1.instance_map) next),
          ok_injective (sym o ∙ ap (λ q. q.0) next),
        )
      where
        each :
            (k : String) (q : Option InstanceInfo)
            → get k s.instance_map ≡ q
            → (for_each s.instance_map update_entry s).0 ≡ ok tt
            → get k (update_connectivity_status kube ns shared visible s).1.instance_map
              ≡ get k (for_each s.instance_map update_entry s).1.instance_map
            → Moves shared early late
                (contains_key k visible)
                q
                (get k (update_connectivity_status kube ns shared visible s).1.instance_map)
        each k none e d same =
            arrive kube ns shared early late clock (contains_key k visible) none none _
              (same ∙ loop-Other k s.instance_map s (not_key k s.instance_map e) ∙ e)
              (Moves.absent (contains_key k visible))
        each k (some i) e d same =
            arrive kube ns shared early late clock (contains_key k visible) (some i) _ _ same
              (loop-Moves k s.instance_map s i u e e d)
