-- ===== src/Base/HashMap.antt =====
-- `std::collections::HashMap` and `BTreeMap` with text keys, as association lists. A key stands at
-- most once in a map that `insert` and `remove` built; the order of a list is one possible order of
-- the iteration, which Rust leaves open for a `HashMap`.
use Prim.Native.String.{String}
use mathlib.Core.Path.{◌≡◌, refl}
use mathlib.Core.Bool.{Bool, true, false, ◌||◌}
use mathlib.Core.List.{List, [], ◌∷◌}
use mathlib.Core.Option.{Option, none, some}
use native.Mathlib.Omega.{arith}
use text.Mathlib.Text.{◌==◌}
use text.Mathlib.TextEquality.{eq_iff}
use akri.Base.Lists.{All}
use akri.Base.Tests.{if◌then◌else◌}

abbrev pub HashMap {ℓ} : Type ℓ → Type ℓ
HashMap V = List (String × V)

module _ {ℓ} {V : Type ℓ} where
  unfoldable pub get : String → HashMap V → Option V
  get k [] = none
  get k ((j, v) ∷ m) = if j == k then some v else get k m

  unfoldable pub insert : String → V → HashMap V → HashMap V
  insert k v [] = (k, v) ∷ []
  insert k v ((j, w) ∷ m) = if j == k then (k, v) ∷ m else (j, w) ∷ insert k v m

  unfoldable pub remove : String → HashMap V → HashMap V
  remove k [] = []
  remove k ((j, w) ∷ m) = if j == k then remove k m else (j, w) ∷ remove k m

  unfoldable pub contains_key : String → HashMap V → Bool
  contains_key k [] = false
  contains_key k ((j, w) ∷ m) = j == k || contains_key k m

  pub get-insert :
      (k j : String) (v : V) (m : HashMap V)
      → get j (insert k v m) ≡ (if k == j then some v else get j m)
  unfolding get insert
  get-insert k j v [] = refl
  get-insert k j v ((i, w) ∷ m) =
      ground (arith, eq_iff k j, eq_iff i k, eq_iff i j, get-insert k j v m)

  pub get-remove :
      (k j : String) (m : HashMap V) → get j (remove k m) ≡ (if k == j then none else get j m)
  unfolding get remove
  get-remove k j [] = ground arith
  get-remove k j ((i, w) ∷ m) = ground (arith, eq_iff k j, eq_iff i k, eq_iff i j, get-remove k j m)

  pub contains_key-insert :
      (k j : String) (v : V) (m : HashMap V)
      → contains_key j (insert k v m) ≡ (k == j || contains_key j m)
  unfolding contains_key insert
  contains_key-insert k j v [] = ground arith
  contains_key-insert k j v ((i, w) ∷ m) =
      ground (arith, eq_iff k j, eq_iff i k, eq_iff i j, contains_key-insert k j v m)

  pub contains_key_of_get :
      (k : String) (m : HashMap V) (v : V) → get k m ≡ some v → contains_key k m ≡ true
  unfolding get contains_key
  contains_key_of_get k [] v h = cc
  contains_key_of_get k ((j, w) ∷ m) v h = ground (arith, contains_key_of_get k m v)

  pub get_of_contains_key : (k : String) (m : HashMap V) → contains_key k m ≡ false → get k m ≡ none
  unfolding get contains_key
  get_of_contains_key k [] h = refl
  get_of_contains_key k ((j, w) ∷ m) h = ground (arith, get_of_contains_key k m)

  abbrev pub HasUniqueKeys : HashMap V → Type 0
  HasUniqueKeys [] = Unit
  HasUniqueKeys ((k, v) ∷ m) = (contains_key k m ≡ false) × HasUniqueKeys m

  pub insert-HasUniqueKeys :
      (k : String) (v : V) (m : HashMap V) → HasUniqueKeys m → HasUniqueKeys (insert k v m)
  unfolding insert contains_key
  insert-HasUniqueKeys k v [] h = (refl, tt)
  insert-HasUniqueKeys k v ((j, w) ∷ m) h =
      ground
        (arith, eq_iff j k, eq_iff k j, insert-HasUniqueKeys k v m, contains_key-insert k j v m)

module _ {V : Type 0} where
  -- Every entry is the one that `get` finds.
  abbrev pub Entries : HashMap V → HashMap V → Type 0
  Entries m = All (λ e. get e.0 m ≡ some e.1)

  Entries-cons :
      (k : String) (v : V) (m xs : HashMap V)
      → contains_key k xs ≡ false
      → Entries m xs
      → Entries ((k, v) ∷ m) xs
  unfolding contains_key get
  Entries-cons k v m [] c h = tt
  Entries-cons k v m ((j, w) ∷ xs) c (g, h) =
      (ground (arith, eq_iff k j, eq_iff j k), Entries-cons k v m xs (ground arith) h)

  pub Entries-self : (m : HashMap V) → HasUniqueKeys m → Entries m m
  unfolding get
  Entries-self [] h = tt
  Entries-self ((k, v) ∷ m) (c, h) =
      (ground (arith, eq_iff k k), Entries-cons k v m m c (Entries-self m h))

module _ {ℓ κ} {V : Type ℓ} {W : Type κ} where
  -- `m.iter().map(|(k, v)| (k, f(k, v))).collect()`: the keys stay, so none is written twice.
  unfoldable pub map_entries : (String → V → W) → HashMap V → HashMap W
  map_entries f [] = []
  map_entries f ((k, v) ∷ m) = (k, f k v) ∷ map_entries f m

  abbrev pub map_option : (V → W) → Option V → Option W
  map_option f none = none
  map_option f (some v) = some (f v)

  pub get-map_entries :
      (f : String → V → W) (k : String) (m : HashMap V)
      → get k (map_entries f m) ≡ map_option (f k) (get k m)
  unfolding get map_entries
  get-map_entries f k [] = refl
  get-map_entries f k ((j, v) ∷ m) = ground (arith, eq_iff j k, get-map_entries f k m)
