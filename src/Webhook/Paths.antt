-- ===== src/Webhook/Paths.antt =====
-- What a value holds, by the paths through it.
use akri.Base.{
  ℕ, zero, suc, String, Bool, true, false, List, [], ◌∷◌, eq_iff, sym, ap, ◌∙◌, ◌↔◌, ◌≡◌, ◌≢◌, refl,
  arith, ◌⊎◌,
}
use akri.Webhook.{
  Value, null, bool, number, string, array, object, Items, nil, cons, Fields, end, field, is_null,
  index_key, index_pos, Mismatch, no_value, unequal, at_key, at_index, Checked, accepted, rejected,
  unless_null, expect, equals_string, equals_bool, equals_number, check, check_items, check_fields,
}

pub data Step : Type 0 where
  key : String → Step
  index : ℕ → Step

-- Where a mismatch is.
abbrev pub path_of : Mismatch → List Step
path_of no_value = []
path_of unequal = []
path_of (at_key k m) = key k ∷ path_of m
path_of (at_index i m) = index i ∷ path_of m

module _ {Number : Type 0} where
  abbrev pub HasField : String → Value Number → Fields Number → Type 0
  HasField k w end = ⊥
  HasField k w (field j v fs) = ((j ≡ k) × (v ≡ w)) ⊎ HasField k w fs

  abbrev pub HasItem : ℕ → Value Number → Items Number → Type 0
  HasItem i w nil = ⊥
  HasItem zero w (cons v vs) = v ≡ w
  HasItem (suc i) w (cons v vs) = HasItem i w vs

  abbrev pub IsPart : Value Number → Step → Value Number → Type 0
  IsPart (object fs) (key k) w = HasField k w fs
  IsPart (array vs) (index i) w = HasItem i w vs
  IsPart _ _ w = ⊥

  -- The path leads from the value to a part of it.
  abbrev pub Reaches : Value Number → List Step → Value Number → Type 0
  Reaches v [] x = v ≡ x
  Reaches v (s ∷ p) x = (w : Value Number) × IsPart v s w × Reaches w p x

  abbrev pub take_step : Value Number → Step → Value Number
  take_step d (key k) = index_key d k
  take_step d (index i) = index_pos d i

  -- What stands at the end of a path, null where the path leaves the value.
  abbrev pub follow : Value Number → List Step → Value Number
  follow d [] = d
  follow d (s ∷ p) = follow (take_step d s) p

module _ {Number : Type 0} (number_eq : Number → Number → Bool) where
  -- A part without parts of its own must be the same in the other value; of an array or an object it is
  -- only asked that something is there, its parts are asked for by longer paths.
  abbrev pub Agrees : Value Number → Value Number → Type 0
  Agrees null y = y ≡ null
  Agrees (bool b) y = y ≡ bool b
  Agrees (number n) y = (m : Number) × (y ≡ number m) × (number_eq n m ≡ true)
  Agrees (string s) y = y ≡ string s
  Agrees (array vs) y = y ≢ null
  Agrees (object fs) y = y ≢ null

  pub bool_iff : (b : Bool) (d : Value Number) → (equals_bool b d ≡ true) ↔ Agrees (bool b) d
  bool_iff true (bool true) = (λ h. refl, λ h. refl)
  bool_iff false (bool false) = (λ h. refl, λ h. refl)
  bool_iff true (bool false) = (λ h. cc, λ h. cc)
  bool_iff false (bool true) = (λ h. cc, λ h. cc)
  bool_iff b null = (λ h. cc, λ h. cc)
  bool_iff b (number n) = (λ h. cc, λ h. cc)
  bool_iff b (string s) = (λ h. cc, λ h. cc)
  bool_iff b (array vs) = (λ h. cc, λ h. cc)
  bool_iff b (object fs) = (λ h. cc, λ h. cc)

  pub string_iff :
      (s : String) (d : Value Number) → (equals_string s d ≡ true) ↔ Agrees (string s) d
  string_iff s (string t) =
      (λ h. ap string (sym ((eq_iff s t).0 h)), λ h. let e : s ≡ t = cc in (eq_iff s t).1 e)
  string_iff s null = (λ h. cc, λ h. cc)
  string_iff s (bool b) = (λ h. cc, λ h. cc)
  string_iff s (number n) = (λ h. cc, λ h. cc)
  string_iff s (array vs) = (λ h. cc, λ h. cc)
  string_iff s (object fs) = (λ h. cc, λ h. cc)

  pub number_iff :
      (n : Number) (d : Value Number) → (equals_number number_eq n d ≡ true) ↔ Agrees (number n) d
  number_iff n (number m) =
      (λ h. (m, refl, h), λ (k, e, h). let f : m ≡ k = cc in ap (number_eq n) f ∙ h)
  number_iff n null = (λ h. cc, λ (k, e, h). cc)
  number_iff n (bool b) = (λ h. cc, λ (k, e, h). cc)
  number_iff n (string s) = (λ h. cc, λ (k, e, h). cc)
  number_iff n (array vs) = (λ h. cc, λ (k, e, h). cc)
  number_iff n (object fs) = (λ h. cc, λ (k, e, h). cc)

  pub null_iff : (d : Value Number) → (is_null d ≡ true) ↔ (d ≡ null)
  null_iff null = (λ h. refl, λ h. refl)
  null_iff (bool b) = (λ h. cc, λ h. cc)
  null_iff (number n) = (λ h. cc, λ h. cc)
  null_iff (string s) = (λ h. cc, λ h. cc)
  null_iff (array vs) = (λ h. cc, λ h. cc)
  null_iff (object fs) = (λ h. cc, λ h. cc)

  expected : (n q : Bool) → unless_null n (expect q) ≡ accepted → q ≡ true
  expected true q h = cc
  expected false true h = refl
  expected false false h = cc

  pub guarded : (n : Bool) (r : Checked) → unless_null n r ≡ accepted → (n ≡ false) × (r ≡ accepted)
  guarded true r h = cc
  guarded false r h = (refl, h)

  not_null : (d : Value Number) → is_null d ≡ false → d ≢ null
  not_null d h e = let t = (null_iff d).1 e in cc

  -- The part itself, if the value was accepted.
  pub accepted-Agrees : (v d : Value Number) → check number_eq v d ≡ accepted → Agrees v d
  unfolding check
  accepted-Agrees null d h = (null_iff d).0 (expected false (is_null d) h)
  accepted-Agrees (bool b) d h = (bool_iff b d).0 (expected (is_null d) (equals_bool b d) h)
  accepted-Agrees (number n) d h =
      (number_iff n d).0 (expected (is_null d) (equals_number number_eq n d) h)
  accepted-Agrees (string s) d h = (string_iff s d).0 (expected (is_null d) (equals_string s d) h)
  accepted-Agrees (array vs) d h =
      not_null d (guarded (is_null d) (check_items number_eq vs d 0) h).0
  accepted-Agrees (object fs) d h =
      not_null d (guarded (is_null d) (check_fields number_eq fs d) h).0

  -- A refusal of a value that has no parts, or because of nothing.
  pub refused :
      (q n : Bool) (m : Mismatch) {A : Type 0}
      → unless_null n (expect q) ≡ rejected m
      → (n ≡ true → ¬ A)
      → (A → q ≡ true)
      → (path_of m ≡ []) × (¬ A)
  refused q true m h f g = (ground arith, f refl)
  refused true false m h f g = cc
  refused false false m h f g = (ground arith, λ a. let t = g a in cc)
