-- ===== src/Agent/Udev.antt =====
-- agent/src/protocols/udev/discovery_impl.rs: the filters of a udev rule, and what the enumerator of libudev
-- is told of them. The pest parser of the rules is a parameter: the pairs of a rule are at hand. The text of
-- an error is shortened.
pub mod Rules
pub mod Devices
pub mod Ancestors
pub mod Selection
pub mod Found
use akri.Base.{
  ℕ, String, Bool, true, false, Option, none, some, List, [], ◌∷◌, map, any, select, Result, ok,
  err, nat_eq, not, ◌&&◌, ◌||◌, if◌then◌else◌, ◌++◌,
}
use akri.Base.HashMap.{HashMap, get}
use akri.Kube.Pods.{◌<>◌}

-- The supported fields of a rule, with their keys.
pub data Field : Type 0 where
  devpath kernel tag driver subsystem : Field
  attribute property : String → Field
  kernels tags drivers subsystems : Field
  attributes : String → Field

pub data Operation : Type 0 where
  equality inequality : Operation

pub record UdevFilter : Type 0 where
  pub field : Field
  pub operation : Operation
  pub value : String

-- One field-value pair of a rule, as the parser hands it over.
pub data ParsedField : Type 0 where
  supported : Field → ParsedField
  unsupported_field : String → ParsedField

pub data ParsedOperation : Type 0 where
  test : Operation → ParsedOperation
  action_operation : ParsedOperation

pub record ParsedFilter : Type 0 where
  pub field : ParsedField
  pub operation : ParsedOperation
  pub value : String

abbrev pub parse_filter : ParsedField → ParsedOperation → String → Result UdevFilter
parse_filter (unsupported_field name) op value =
    err ("parse_udev_rule - unsupported field " <> name)
parse_filter (supported field) action_operation value =
    err "parse_udev_rule - unsupported action operation"
parse_filter (supported field) (test op) value =
    ok (record { field = field; operation = op; value = value })

abbrev pub push : Result UdevFilter → Result (List UdevFilter) → Result (List UdevFilter)
push (err e) rest = err e
push (ok f) (err e) = err e
push (ok f) (ok fs) = ok (f ∷ fs)

-- `parse_udev_rule`, after the parser.
unfoldable pub collect_filters : List ParsedFilter → Result (List UdevFilter)
collect_filters [] = ok []
collect_filters (p ∷ ps) = push (parse_filter p.field p.operation p.value) (collect_filters ps)

-- What a device says of itself.
pub record DeviceInfo : Type 0 where
  pub devpath : String
  pub devnode : Option String
  pub sysname : String
  pub properties : HashMap String
  pub attributes : HashMap String
  pub driver : Option String
  pub subsystem : Option String

-- A device stands alone or below its parent.
pub data Device : Type 0 where
  root : DeviceInfo → Device
  child : DeviceInfo → Device → Device

abbrev pub info_of : Device → DeviceInfo
info_of (root i) = i
info_of (child i p) = i

-- The calls of `Enumerator`.
pub data EnumeratorCall : Type 0 where
  add_syspath match_sysname match_tag match_subsystem nomatch_subsystem : String → EnumeratorCall
  match_attribute match_property nomatch_attribute : String → String → EnumeratorCall

-- `match_fields` and `nomatch_fields` of `find_devices`.
abbrev pub is_match_field : Field → Bool
is_match_field devpath = true
is_match_field kernel = true
is_match_field tag = true
is_match_field subsystem = true
is_match_field (attribute key) = true
is_match_field (property key) = true
is_match_field _ = false

abbrev pub is_nomatch_field : Field → Bool
is_nomatch_field (attribute key) = true
is_nomatch_field subsystem = true
is_nomatch_field _ = false

abbrev pub is_equality : Operation → Bool
is_equality equality = true
is_equality inequality = false

abbrev pub is_match_filter : UdevFilter → Bool
is_match_filter f = is_equality f.operation && is_match_field f.field

abbrev pub is_nomatch_filter : UdevFilter → Bool
is_nomatch_filter f = not (is_equality f.operation) && is_nomatch_field f.field

abbrev pub is_remaining_filter : UdevFilter → Bool
is_remaining_filter f = not (is_match_filter f || is_nomatch_filter f)

abbrev match_call : Field → String → List EnumeratorCall
match_call devpath v = add_syspath ("/sys" <> v) ∷ []
match_call kernel v = match_sysname v ∷ []
match_call tag v = match_tag v ∷ []
match_call subsystem v = match_subsystem v ∷ []
match_call (attribute key) v = match_attribute key v ∷ []
match_call (property key) v = match_property key v ∷ []
match_call _ v = []

abbrev nomatch_call : Field → String → List EnumeratorCall
nomatch_call (attribute key) v = nomatch_attribute key v ∷ []
nomatch_call subsystem v = nomatch_subsystem v ∷ []
nomatch_call _ v = []

unfoldable pub filter_by_match_udev_filters : List UdevFilter → List EnumeratorCall
filter_by_match_udev_filters [] = []
filter_by_match_udev_filters (f ∷ fs) =
    match_call f.field f.value ++ filter_by_match_udev_filters fs

unfoldable pub filter_by_nomatch_udev_filters : List UdevFilter → List EnumeratorCall
filter_by_nomatch_udev_filters [] = []
filter_by_nomatch_udev_filters (f ∷ fs) =
    nomatch_call f.field f.value ++ filter_by_nomatch_udev_filters fs

-- The calls on the enumerator.
abbrev pub enumerator_calls : List UdevFilter → List EnumeratorCall
enumerator_calls udev_filters =
    filter_by_match_udev_filters (select is_match_filter udev_filters)
    ++ filter_by_nomatch_udev_filters (select is_nomatch_filter udev_filters)
