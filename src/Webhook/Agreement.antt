-- ===== src/Webhook/Agreement.antt =====
-- `check` beside the paths through the two values.
use mathlib.Core.Path.{subst}
use akri.Base.{
  ℕ, zero, suc, ◌+◌, String, Bool, true, false, List, [], ◌∷◌, ◌≡◌, ◌↔◌, refl, sym, ap, arith, ◌⊎◌,
  inl, inr,
}
use akri.Webhook.{
  Value, null, bool, number, string, array, object, Items, nil, cons, Fields, end, field, is_null,
  index_key, index_pos, Mismatch, at_key, at_index, Checked, accepted, rejected, unless_null,
  expect, and_then, equals_string, equals_bool, equals_number, check, check_items, check_fields,
}
use akri.Webhook.Paths.{
  Step, key, index, path_of, HasField, HasItem, Reaches, follow, Agrees, accepted-Agrees, refused,
  guarded, null_iff, bool_iff, string_iff, number_iff,
}

both :
    (place : Mismatch → Mismatch) (r rest : Checked)
    → and_then place r rest ≡ accepted
    → (r ≡ accepted) × (rest ≡ accepted)
both place accepted rest h = (refl, h)
both place (rejected m) rest h = cc

module _ {Number : Type 0} (number_eq : Number → Number → Bool) where
  mutual
    unfolding check

    sound :
        (v d : Value Number)
        → check number_eq v d ≡ accepted
        → (p : List Step) (x : Value Number) → Reaches v p x
        → Agrees number_eq x (follow d p)
    sound v d h [] x e = subst (λ w. Agrees number_eq w d) e (accepted-Agrees number_eq v d h)
    sound null d h (s ∷ p) x (w, part, r) = elim part [ ]
    sound (bool b) d h (s ∷ p) x (w, part, r) = elim part [ ]
    sound (number n) d h (s ∷ p) x (w, part, r) = elim part [ ]
    sound (string t) d h (s ∷ p) x (w, part, r) = elim part [ ]
    sound (array vs) d h (key k ∷ p) x (w, part, r) = elim part [ ]
    sound (array vs) d h (index i ∷ p) x (w, part, r) =
        sound_items vs d 0 i i (omega arith)
          (guarded number_eq (is_null d) (check_items number_eq vs d 0) h).1 w p x part r
    sound (object fs) d h (index i ∷ p) x (w, part, r) = elim part [ ]
    sound (object fs) d h (key k ∷ p) x (w, part, r) =
        sound_fields fs d (guarded number_eq (is_null d) (check_fields number_eq fs d) h).1 k w p x
          part r

    sound_items :
        (vs : Items Number) (d : Value Number) (pos i j : ℕ)
        → pos + i ≡ j
        → check_items number_eq vs d pos ≡ accepted
        → (w : Value Number) (p : List Step) (x : Value Number) → HasItem i w vs
        → Reaches w p x
        → Agrees number_eq x (follow (index_pos d j) p)
    sound_items nil d pos i j e h w p x part r = elim part [ ]
    sound_items (cons v vs) d pos zero j e h w p x part r =
        let same : pos ≡ j = omega arith in
        subst (λ k. Agrees number_eq x (follow (index_pos d k) p)) same
          (sound v (index_pos d pos) (both (at_index pos) _ _ h).0 p x
            (subst (λ u. Reaches u p x) (sym part) r))
    sound_items (cons v vs) d pos (suc i) j e h w p x part r =
        sound_items vs d (suc pos) i j (omega arith)
          (both (at_index pos) (check number_eq v (index_pos d pos)) _ h).1 w p x part r

    sound_fields :
        (fs : Fields Number) (d : Value Number)
        → check_fields number_eq fs d ≡ accepted
        → (k : String) (w : Value Number) (p : List Step) (x : Value Number) → HasField k w fs
        → Reaches w p x
        → Agrees number_eq x (follow (index_key d k) p)
    sound_fields end d h k w p x part r = elim part [ ]
    sound_fields (field j v fs) d h k w p x (inl (e, same)) r =
        subst (λ i. Agrees number_eq x (follow (index_key d i) p)) e
          (sound v (index_key d j) (both (at_key j) _ _ h).0 p x
            (subst (λ u. Reaches u p x) (sym same) r))
    sound_fields (field j v fs) d h k w p x (inr part) r =
        sound_fields fs d (both (at_key j) (check number_eq v (index_key d j)) _ h).1 k w p x part r

  -- The path leads to a part that does not agree with what the other value has there.
  abbrev pub Disagrees : Value Number → Value Number → List Step → Type 0
  Disagrees v d p = (x : Value Number) × Reaches v p x × (¬ Agrees number_eq x (follow d p))

  -- Why a value with a guard is refused, and why a loop ends with a mismatch.
  abbrev Failed : Bool → Checked → Mismatch → Type 0
  Failed n r m = ((n ≡ true) × (path_of m ≡ [])) ⊎ (r ≡ rejected m)

  failed : (n : Bool) (r : Checked) (m : Mismatch) → unless_null n r ≡ rejected m → Failed n r m
  failed true r m h = inl (refl, ground arith)
  failed false r m h = inr h

  first :
      (place : Mismatch → Mismatch) (r rest : Checked) (m : Mismatch)
      → and_then place r rest ≡ rejected m
      → ((m' : Mismatch) × (r ≡ rejected m') × (m ≡ place m')) ⊎ (rest ≡ rejected m)
  first place accepted rest m h = inr h
  first place (rejected m') rest m h = inl (m', refl, cc)

  leaf :
      (v d : Value Number) (q : Bool) (m : Mismatch)
      → unless_null (is_null d) (expect q) ≡ rejected m
      → (is_null d ≡ true → ¬ Agrees number_eq v d)
      → (Agrees number_eq v d → q ≡ true)
      → Disagrees v d (path_of m)
  leaf v d q m h f g =
      let (at, wrong) = refused number_eq q (is_null d) m h f g in rw at (v, refl, wrong)

  mutual
    unfolding check

    located :
        (v d : Value Number) (m : Mismatch)
        → check number_eq v d ≡ rejected m
        → Disagrees v d (path_of m)
    located null d m h =
        let (at, wrong) =
          refused number_eq (is_null d) false m {A = d ≡ null} h (λ e. cc)
            (null_iff number_eq d).1 in
        rw at (null, refl, wrong)
    located (bool b) d m h =
        leaf (bool b) d (equals_bool b d) m h (λ e a. let f = (null_iff number_eq d).0 e in cc)
          (bool_iff number_eq b d).1
    located (number n) d m h =
        leaf (number n) d (equals_number number_eq n d) m h
          (λ e (k, a, q). let f = (null_iff number_eq d).0 e in cc) (number_iff number_eq n d).1
    located (string t) d m h =
        leaf (string t) d (equals_string t d) m h (λ e a. let f = (null_iff number_eq d).0 e in cc)
          (string_iff number_eq t d).1
    located (array vs) d m h = elim (failed (is_null d) (check_items number_eq vs d 0) m h) [
      | inl (e, at) ↦ rw at (array vs, refl, λ f. f ((null_iff number_eq d).0 e))
      | inr g ↦
          let (i, j, w, m', e, part, at, (x, there, wrong)) = located_items vs d 0 m g in
          let same : i ≡ j = omega arith in
          rw at (x, (w, subst (λ k. HasItem k w vs) same part, there), wrong)
    ]
    located (object fs) d m h = elim (failed (is_null d) (check_fields number_eq fs d) m h) [
      | inl (e, at) ↦ rw at (object fs, refl, λ f. f ((null_iff number_eq d).0 e))
      | inr g ↦
          let (k, w, m', part, at, (x, there, wrong)) = located_fields fs d m g in
          rw at (x, (w, part, there), wrong)
    ]

    located_items :
        (vs : Items Number) (d : Value Number) (pos : ℕ) (m : Mismatch)
        → check_items number_eq vs d pos ≡ rejected m
        → (i j : ℕ) × (w : Value Number) × (m' : Mismatch) × (pos + i ≡ j)
          × HasItem i w vs
          × (path_of m ≡ index j ∷ path_of m')
          × Disagrees w (index_pos d j) (path_of m')
    located_items nil d pos m h = cc
    located_items (cons v vs) d pos m h =
        elim (first (at_index pos) (check number_eq v (index_pos d pos))
          (check_items number_eq vs d (suc pos)) m h) [
            | inl (m', g, e) ↦ (
              zero,
              pos,
              v,
              m',
              omega arith,
              refl,
              ap path_of e,
              located v (index_pos d pos) m' g,
            )
            | inr g ↦
                let (i, j, w, m', e, part, at, wrong) = located_items vs d (suc pos) m g in
                (suc i, j, w, m', omega arith, part, at, wrong)
          ]

    located_fields :
        (fs : Fields Number) (d : Value Number) (m : Mismatch)
        → check_fields number_eq fs d ≡ rejected m
        → (k : String) × (w : Value Number) × (m' : Mismatch) × HasField k w fs
          × (path_of m ≡ key k ∷ path_of m')
          × Disagrees w (index_key d k) (path_of m')
    located_fields end d m h = cc
    located_fields (field j v fs) d m h =
        elim (first (at_key j) (check number_eq v (index_key d j)) (check_fields number_eq fs d) m
          h) [
            | inl (m', g, e) ↦
                (j, v, m', inl (refl, refl), ap path_of e, located v (index_key d j) m' g)
            | inr g ↦
                let (k, w, m', part, at, wrong) = located_fields fs d m g in
                (k, w, m', inr part, at, wrong)
          ]

  -- Every part that a path leads to in the one value agrees with what the path leads to in the other.
  abbrev pub IsKept : Value Number → Value Number → Type 0
  IsKept v d = (p : List Step) (x : Value Number) → Reaches v p x → Agrees number_eq x (follow d p)

  kept_accepted :
      (v d : Value Number) (r : Checked) → check number_eq v d ≡ r → IsKept v d → r ≡ accepted
  kept_accepted v d accepted e h = refl
  kept_accepted v d (rejected m) e h =
      let (x, there, wrong) = located v d m e in absurd (wrong (h (path_of m) x there))

  -- `check` accepts exactly if every part of the first value is found again, at the same path, in the
  -- second: a text, number, truth value or null as the same, an array or object as something that is not
  -- null.
  pub check_iff : (v d : Value Number) → (check number_eq v d ≡ accepted) ↔ IsKept v d
  check_iff v d = (sound v d, kept_accepted v d (check number_eq v d) refl)

  -- The error of `check` names a path that leads to a part of the first value which does not agree with
  -- what the second has there.
  pub check-Disagrees :
      (v d : Value Number) (m : Mismatch)
      → check number_eq v d ≡ rejected m
      → Disagrees v d (path_of m)
  check-Disagrees = located
