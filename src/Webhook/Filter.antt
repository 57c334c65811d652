-- ===== src/Webhook/Filter.antt =====
-- What `filter_configuration` leaves out of an object.
use mathlib.Core.Path.{subst}
use akri.Base.{String, Option, none, some, ◌==◌, ◌||◌, if◌then◌else◌, eq_iff, ◌≡◌, ◌≢◌, refl, arith}
use akri.Webhook.{
  Value, null, bool, number, string, array, object, Fields, end, field, get_field, index_key,
  remove_field, set_field, float_of, with_generation, with_metadata, filter_found,
  filter_configuration,
}

module _ {Number : Type 0} where
  abbrev overwrite : Value Number → Option (Value Number) → Option (Value Number)
  overwrite new none = none
  overwrite new (some v) = some new

  -- The value of a metadata field after the filter.
  abbrev pub filtered_value : String → Number → Value Number → Value Number
  filtered_value key n old =
      if key == "creationTimestamp" || (key == "deletionTimestamp" || key == "managedFields")
      then null
      else if key == "generation"
      then number n
      else old

module _ {Number : Type 0} (as_f64 : Number → Option Number) where
  get_field-remove_field :
      (key k : String) (fs : Fields Number)
      → get_field k (remove_field as_f64 key fs) ≡ (if key == k then none else get_field k fs)
  unfolding remove_field
  get_field-remove_field key k end = ground arith
  get_field-remove_field key k (field j v fs) =
      ground (arith, get_field-remove_field key k fs, eq_iff j key, eq_iff j k, eq_iff key k)

  get_field-set_field :
      (key k : String) (new : Value Number) (fs : Fields Number)
      → get_field k (set_field as_f64 key new fs)
        ≡ (if key == k then overwrite new (get_field k fs) else get_field k fs)
  unfolding set_field
  get_field-set_field key k new end = ground arith
  get_field-set_field key k new (field j v fs) =
      ground (arith, get_field-set_field key k new fs, eq_iff j key, eq_iff j k, eq_iff key k)

  -- What a result of the filter is.
  pub record IsFiltered (before after : Value Number) : Type 0 where
    pub generation : Number
    pub generation_float : Number
    pub was : index_key (index_key before "metadata") "generation" ≡ number generation
    pub float : as_f64 generation ≡ some generation_float
    pub metadata :
        (key : String)
        → index_key (index_key after "metadata") key
          ≡ filtered_value key generation_float (index_key (index_key before "metadata") key)
    pub others : (key : String) → key ≢ "metadata" → index_key after key ≡ index_key before key

  left : Fields Number → Fields Number
  left metadata =
      remove_field as_f64 "managedFields"
        (remove_field as_f64 "deletionTimestamp" (remove_field as_f64 "creationTimestamp" metadata))

  number_of :
      (o : Option (Value Number)) (n : Number)
      → float_of as_f64 o ≡ some n
      → (g : Number) × (o ≡ some (number g)) × (as_f64 g ≡ some n)
  number_of none n h = cc
  number_of (some null) n h = cc
  number_of (some (bool b)) n h = cc
  number_of (some (number g)) n h = (g, refl, h)
  number_of (some (string s)) n h = cc
  number_of (some (array vs)) n h = cc
  number_of (some (object fs)) n h = cc

  get_field-left :
      (k : String) (metadata : Fields Number)
      → get_field k (left metadata) ≡ (
          if k == "creationTimestamp" || (k == "deletionTimestamp" || k == "managedFields")
          then none
          else get_field k metadata)
  unfolding left
  get_field-left k metadata = ground (
    arith,
    get_field-remove_field "managedFields" k (
        remove_field as_f64 "deletionTimestamp" (remove_field as_f64 "creationTimestamp" metadata)),
    get_field-remove_field "deletionTimestamp" k (remove_field as_f64 "creationTimestamp" metadata),
    get_field-remove_field "creationTimestamp" k metadata,
    eq_iff k "creationTimestamp",
    eq_iff k "deletionTimestamp",
    eq_iff k "managedFields",
    eq_iff "creationTimestamp" k,
    eq_iff "deletionTimestamp" k,
    eq_iff "managedFields" k,
  )

  found-IsFiltered :
      (fs metadata : Fields Number) (n : Number)
      → get_field "metadata" fs ≡ some (object metadata)
      → float_of as_f64 (get_field "generation" (left metadata)) ≡ some n
      → IsFiltered (object fs) (
          object (
            set_field as_f64 "metadata"
              (object (set_field as_f64 "generation" (number n) (left metadata)))
              fs))
  found-IsFiltered fs metadata n m g =
      let (old, was, float) = number_of (get_field "generation" (left metadata)) n g in
      let new = object (set_field as_f64 "generation" (number n) (left metadata)) in
      record {
        generation = old;
        generation_float = n;
        was = ground (arith, get_field-left "generation" metadata);
        float = float;
        metadata = λ key. ground (
          arith,
          get_field-set_field "metadata" "metadata" new fs,
          get_field-set_field "generation" key (number n) (left metadata),
          get_field-left key metadata,
          eq_iff key "generation",
          eq_iff "generation" key,
        );
        others = λ key ne.
            ground (arith, get_field-set_field "metadata" key new fs, eq_iff "metadata" key);
      }

  generation-IsFiltered :
      (fs metadata : Fields Number) (after : Value Number) (o : Option Number)
      → get_field "metadata" fs ≡ some (object metadata)
      → float_of as_f64 (get_field "generation" (left metadata)) ≡ o
      → with_metadata as_f64 fs (with_generation as_f64 o (left metadata)) ≡ some after
      → IsFiltered (object fs) after
  generation-IsFiltered fs metadata after none m g h = cc
  generation-IsFiltered fs metadata after (some n) m g h =
      subst (IsFiltered (object fs)) (cc) (found-IsFiltered fs metadata n m g)

  metadata-IsFiltered :
      (fs : Fields Number) (after : Value Number) (o : Option (Value Number))
      → get_field "metadata" fs ≡ o
      → filter_found as_f64 fs o ≡ some after
      → IsFiltered (object fs) after
  unfolding left
  metadata-IsFiltered fs after none m h = cc
  metadata-IsFiltered fs after (some null) m h = cc
  metadata-IsFiltered fs after (some (bool b)) m h = cc
  metadata-IsFiltered fs after (some (number g)) m h = cc
  metadata-IsFiltered fs after (some (string s)) m h = cc
  metadata-IsFiltered fs after (some (array vs)) m h = cc
  metadata-IsFiltered fs after (some (object metadata)) m h =
      generation-IsFiltered fs metadata after _ m refl h

  -- Where `filter_configuration` does not panic, the metadata loses its two timestamps and its managed
  -- fields, its generation, which was a number, is that number as a float, and nothing else changes.
  pub filter_configuration-IsFiltered :
      (before after : Value Number)
      → filter_configuration as_f64 before ≡ some after
      → IsFiltered before after
  unfolding filter_configuration
  filter_configuration-IsFiltered null after h = cc
  filter_configuration-IsFiltered (bool b) after h = cc
  filter_configuration-IsFiltered (number g) after h = cc
  filter_configuration-IsFiltered (string s) after h = cc
  filter_configuration-IsFiltered (array vs) after h = cc
  filter_configuration-IsFiltered (object fs) after h =
      metadata-IsFiltered fs after (get_field "metadata" fs) refl h
