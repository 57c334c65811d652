-- ===== src/Agent/Configurations/Cleared.antt =====
-- What a deletion leaves behind, of all Instances of the Configuration and of the other Configurations.
use mathlib.Core.Path.{subst}
use akri.Base.{
  String, Option, none, some, [], ◌∷◌, Result, ok, err, for_each, All, Elem, ◌==◌, eq_iff, ◌≡◌,
  refl, arith, inl, inr, ◌⊎◌, Bool-cases, bind_result,
}
use akri.Base.HashMap.{get, remove, get-remove}
use akri.Base.Loops.{All-trivial, for_each_inv, for_each-All}
use akri.Kube.Api.{Trace, Done, KubeInterface, sent_end}
use akri.Agent.DevicePlugin.{InstanceInfo, InstanceMap}
use akri.Agent.Connectivity.{Discovery, on_trace, try_delete_instance}
use akri.Agent.Configurations.{Answers, drop_instance, end_entry, end_instances}
use akri.Agent.Configurations.Deletion.{
  IsEnded, IsEnded-cons, try_delete-Keeps, end_entry-Keeps, end_entry-IsEnded,
}

get_of_All :
    (P : String → Type 0) (k : String) (m : InstanceMap) (i : InstanceInfo)
    → All (λ e. P e.0) m
    → get k m ≡ some i
    → P k
unfolding get
get_of_All P k [] i h g = cc
get_of_All P k ((j, w) ∷ m) i (p, h) g = elim (Bool-cases (j == k)) [
  | inl e ↦ subst P ((eq_iff j k).0 e) p
  | inr e ↦ get_of_All P k m i h (ground arith)
]

module _ (kube : KubeInterface) (answers : Answers) (namespace : String) where
  abbrev entry : String × InstanceInfo → Discovery → Result (Unit {0}) × Discovery
  entry = end_entry kube answers namespace

  -- The two ways that an Instance is left: its plugin took no message, or it is out of the map.
  end_entry_cases :
      (P : Result (Unit {0}) → Discovery → Type 0) (e : String × InstanceInfo) (d : Discovery)
      → ((m : String) → P (err m) (record d { trace = sent_end e.0 ∷ d.trace }))
      → ((r : Result (Unit {0})) (t : Trace)
          → Elem (sent_end e.0) t
          → P r (record { instance_map = remove e.0 d.instance_map; trace = t }))
      → P (entry e d).0 (entry e d).1
  end_entry_cases P e d h k = go (answers.end_taken d.trace e.0)
    where
      after : Done → Result (Unit {0}) × Discovery
      after r =
          bind_result (r, record d { trace = sent_end e.0 ∷ d.trace })
            λ u w.
              bind_result (drop_instance e.0 w)
                λ v. on_trace (try_delete_instance kube e.0 namespace)

      go : (r : Done) → P (after r).0 (after r).1
      go (ok u) = k _ _ (
          try_delete-Keeps kube (λ t. Elem (sent_end e.0) t) e.0 namespace (λ ev t. inr) _
            (inl refl))
      go (err m) = h m

  module _ (k : String) where
    -- An Instance is in the map as before, or its plugin was told to end.
    abbrev pub IsKept : Option InstanceInfo → Discovery → Type 0
    IsKept o d = (get k d.instance_map ≡ o) ⊎ Elem (sent_end k) d.trace

    entry-IsKept :
        (o : Option InstanceInfo) (e : String × InstanceInfo) (d : Discovery)
        → IsKept o d
        → IsKept o (entry e d).1
    entry-IsKept o e d (inr h) =
        inr (end_entry-Keeps kube answers namespace (λ t. Elem (sent_end k) t) e (λ ev t. inr) d h)
    entry-IsKept o e d (inl g) =
        end_entry_cases (λ r. IsKept o) e d (λ m. inl g)
          λ r t there. elim (Bool-cases (e.0 == k)) [
            | inl q ↦ inr (subst (λ x. Elem (sent_end x) t) ((eq_iff e.0 k).0 q) there)
            | inr q ↦ inl (rw (get-remove e.0 k d.instance_map, q) g)
          ]

    entry-absent :
        (e : String × InstanceInfo) (d : Discovery)
        → get k d.instance_map ≡ none
        → get k (entry e d).1.instance_map ≡ none
    entry-absent e d g =
        end_entry_cases (λ r w. get k w.instance_map ≡ none) e d (λ m. g)
          (λ r t there. ground (arith, get-remove e.0 k d.instance_map))

  entry-removed :
      (e : String × InstanceInfo) (d : Discovery)
      → (entry e d).0 ≡ ok tt
      → get e.0 (entry e d).1.instance_map ≡ none
  entry-removed e d =
      end_entry_cases (λ r w. r ≡ ok tt → get e.0 w.instance_map ≡ none) e d (λ m h. cc)
        (λ r t there h. ground (arith, get-remove e.0 e.0 d.instance_map, eq_iff e.0 e.0))

  -- Each Instance whose plugin was not told to end is left as it was, also after an error.
  pub end_instances-IsKept :
      (d : Discovery) (k : String)
      → IsKept k (get k d.instance_map) (end_instances kube answers namespace d).1
  end_instances-IsKept d k =
      for_each_inv (IsKept k (get k d.instance_map)) (λ _. Unit {0}) entry
        (λ e w _. entry-IsKept k (get k d.instance_map) e w) d.instance_map d
        (All-trivial d.instance_map) (inl refl)

  -- After a loop without error no Instance is left, and each was ended.
  pub end_instances-AreEnded :
      (d : Discovery)
      → (end_instances kube answers namespace d).0 ≡ ok tt
      → ((k : String) → get k (end_instances kube answers namespace d).1.instance_map ≡ none)
        × All
            (λ e. IsEnded answers e.0 namespace (end_instances kube answers namespace d).1.trace)
            d.instance_map
  end_instances-AreEnded d o = (
    λ k. absent k (get k d.instance_map) refl,
    for_each-All (λ e w. IsEnded answers e.0 namespace w.trace) entry
        (end_entry-IsEnded kube answers namespace)
        (λ e f.
          end_entry-Keeps kube answers namespace (IsEnded answers e.0 namespace) f
            (IsEnded-cons answers e.0 namespace))
        d.instance_map d o,
  )
    where
      gone :
          All (λ e. get e.0 (for_each d.instance_map entry d).1.instance_map ≡ none) d.instance_map
      gone =
          for_each-All (λ e w. get e.0 w.instance_map ≡ none) entry entry-removed
            (λ e f w. entry-absent e.0 f w) d.instance_map d o

      absent :
          (k : String) (q : Option InstanceInfo)
          → get k d.instance_map ≡ q
          → get k (for_each d.instance_map entry d).1.instance_map ≡ none
      absent k none e =
          for_each_inv (λ w. get k w.instance_map ≡ none) (λ _. Unit {0}) entry
            (λ f w _. entry-absent k f w) d.instance_map d (All-trivial d.instance_map) e
      absent k (some i) e =
          get_of_All (λ x. get x (for_each d.instance_map entry d).1.instance_map ≡ none) k
            d.instance_map i gone e
