-- ===== src/Webhook.antt =====
-- webhooks/validating/configuration/src/main.rs: a Configuration is admitted if nothing of it is lost when
-- it is read into the program's types and written again. A number of serde_json is a parameter, with its
-- equality and its value as a float. The text of an error is left out: a mismatch is what it names.
pub mod Paths
pub mod Agreement
pub mod Filter
pub mod Validation
use akri.Base.{
  ℕ, zero, suc, String, Bool, true, false, Option, none, some, not, ◌==◌, if◌then◌else◌,
}

pub data Mismatch : Type 0 where
  no_value unequal : Mismatch
  at_key : String → Mismatch → Mismatch
  at_index : ℕ → Mismatch → Mismatch

-- The `Result` of `check`.
pub data Checked : Type 0 where
  accepted : Checked
  rejected : Mismatch → Checked

-- `serde_json::Value`; an object's fields stand in the order of the map.
module _ (Number : Type 0) where
  mutual
    pub data Value : Type 0 where
      null : Value
      bool : Bool → Value
      number : Number → Value
      string : String → Value
      array : Items → Value
      object : Fields → Value

    pub data Items : Type 0 where
      nil : Items
      cons : Value → Items → Items

    pub data Fields : Type 0 where
      end : Fields
      field : String → Value → Fields → Fields

module _ {Number : Type 0} where
  abbrev pub is_null : Value Number → Bool
  is_null null = true
  is_null _ = false

  abbrev pub get_field : String → Fields Number → Option (Value Number)
  get_field key end = none
  get_field key (field k v fs) = if k == key then some v else get_field key fs

  abbrev pub or_null : Option (Value Number) → Value Number
  or_null none = null
  or_null (some v) = v

  -- `value[key]` and `value[pos]` of serde_json: null where there is nothing.
  abbrev pub index_key : Value Number → String → Value Number
  index_key (object fs) key = or_null (get_field key fs)
  index_key _ key = null

  abbrev pub get_item : ℕ → Items Number → Value Number
  get_item pos nil = null
  get_item zero (cons v vs) = v
  get_item (suc pos) (cons v vs) = get_item pos vs

  abbrev pub index_pos : Value Number → ℕ → Value Number
  index_pos (array vs) pos = get_item pos vs
  index_pos _ pos = null

module _ {Number : Type 0} where
  abbrev pub equals_string : String → Value Number → Bool
  equals_string s (string ds) = s == ds
  equals_string s _ = false

  abbrev pub equals_bool : Bool → Value Number → Bool
  equals_bool b (bool db) = if b then db else not db
  equals_bool b _ = false

-- The guard at the start of `check`.
abbrev pub unless_null : Bool → Checked → Checked
unless_null true rest = rejected no_value
unless_null false rest = rest

abbrev pub expect : Bool → Checked
expect true = accepted
expect false = rejected unequal

-- The body of a loop over a value's parts: the first mismatch ends it.
abbrev pub and_then : (Mismatch → Mismatch) → Checked → Checked → Checked
and_then place accepted rest = rest
and_then place (rejected m) rest = rejected (place m)

module _ {Number : Type 0} (number_eq : Number → Number → Bool) where
  abbrev pub equals_number : Number → Value Number → Bool
  equals_number n (number dn) = number_eq n dn
  equals_number n _ = false

  unfoldable mutual
    pub check : Value Number → Value Number → Checked
    check null d = expect (is_null d)
    check (bool b) d = unless_null (is_null d) (expect (equals_bool b d))
    check (number n) d = unless_null (is_null d) (expect (equals_number n d))
    check (string s) d = unless_null (is_null d) (expect (equals_string s d))
    check (array vs) d = unless_null (is_null d) (check_items vs d 0)
    check (object fs) d = unless_null (is_null d) (check_fields fs d)

    pub check_items : Items Number → Value Number → ℕ → Checked
    check_items nil d pos = accepted
    check_items (cons v vs) d pos =
        and_then (at_index pos) (check v (index_pos d pos)) (check_items vs d (suc pos))

    pub check_fields : Fields Number → Value Number → Checked
    check_fields end d = accepted
    check_fields (field key v fs) d =
        and_then (at_key key) (check v (index_key d key)) (check_fields fs d)

module _ {Number : Type 0} (as_f64 : Number → Option Number) where
  unfoldable pub remove_field : String → Fields Number → Fields Number
  remove_field key end = end
  remove_field key (field k v fs) =
      if k == key then remove_field key fs else field k v (remove_field key fs)

  -- The new value of a field that is there.
  unfoldable pub set_field : String → Value Number → Fields Number → Fields Number
  set_field key new end = end
  set_field key new (field k v fs) =
      if k == key then field k new fs else field k v (set_field key new fs)

  abbrev pub float_of : Option (Value Number) → Option Number
  float_of (some (number n)) = as_f64 n
  float_of _ = none

  abbrev pub with_generation : Option Number → Fields Number → Option (Fields Number)
  with_generation none metadata = none
  with_generation (some n) metadata = some (set_field "generation" (number n) metadata)

  abbrev pub filter_metadata : Fields Number → Option (Fields Number)
  filter_metadata metadata =
      let left =
        remove_field "managedFields"
          (remove_field "deletionTimestamp" (remove_field "creationTimestamp" metadata)) in
      with_generation (float_of (get_field "generation" left)) left

  abbrev pub with_metadata : Fields Number → Option (Fields Number) → Option (Value Number)
  with_metadata fs none = none
  with_metadata fs (some metadata) = some (object (set_field "metadata" (object metadata) fs))

  abbrev pub filter_found : Fields Number → Option (Value Number) → Option (Value Number)
  filter_found fs (some (object metadata)) = with_metadata fs (filter_metadata metadata)
  filter_found fs _ = none

  -- `none` is a panic: no metadata, no generation there, or one that is no number.
  unfoldable pub filter_configuration : Value Number → Option (Value Number)
  filter_configuration (object fs) = filter_found fs (get_field "metadata" fs)
  filter_configuration _ = none

-- The cause that stands in the status of a refusal.
pub data Cause : Type 0 where
  no_data : Cause
  mismatch : Mismatch → Cause

-- The fields of an `AdmissionResponse` that the program sets; a refusal has a status.
pub record AdmissionResponse : Type 0 where
  pub allowed : Bool
  pub status : Option Cause
  pub uid : String

pub record AdmissionRequest (Number : Type 0) : Type 0 where
  pub uid : String
  pub request_object : Option (Value Number)

-- `reserialize` reads a value as a `KubeAkriConfig` and writes it again; `none` is a panic, where the
-- value is none.
module _ {Number : Type 0} (number_eq : Number → Number → Bool) (as_f64 : Number → Option Number)
    (reserialize : Value Number → Option (Value Number)) where
  abbrev pub respond : String → Checked → AdmissionResponse
  respond uid accepted = record { allowed = true; status = none; uid = uid }
  respond uid (rejected m) = record { allowed = false; status = some (mismatch m); uid = uid }

  abbrev pub compare_filtered :
      String → Option (Value Number) → Option (Value Number) → Option AdmissionResponse
  compare_filtered uid (some deserialized) (some v) =
      some (respond uid (check number_eq v deserialized))
  compare_filtered uid _ _ = none

  abbrev pub validate_object : String → Option (Value Number) → Option AdmissionResponse
  validate_object uid (some raw) =
      compare_filtered uid (reserialize raw) (filter_configuration as_f64 raw)
  validate_object uid none = some (record { allowed = false; status = some no_data; uid = uid })

  -- `none` is a panic.
  unfoldable pub validate_configuration : AdmissionRequest Number → Option AdmissionResponse
  validate_configuration rqst = validate_object rqst.uid rqst.request_object
