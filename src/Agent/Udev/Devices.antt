-- ===== src/Agent/Udev/Devices.antt =====
-- agent/src/protocols/udev/discovery_impl.rs: the devices that a udev rule asks for. The enumerator of libudev,
-- and of the standard library and `regex` what reads texts are parameters. The calls on the enumerator do
-- not fail, and the texts of a device are valid UTF-8.
use akri.Base.{
  ℕ, String, Bool, true, false, Option, none, some, List, [], ◌∷◌, any, select, Result, ok, err,
  nat_eq, not, ◌&&◌, ◌||◌, if◌then◌else◌,
}
use akri.Base.HashMap.{get}
use akri.Agent.Udev.{
  Device, DeviceInfo, EnumeratorCall, Field, UdevFilter, attributes, child, devpath, driver,
  drivers, enumerator_calls, info_of, is_equality, is_remaining_filter, kernel, kernels, property,
  root, subsystems, tag, tags,
}

-- Devices without a node are passed over.
unfoldable pub devnodes : List Device → List String
devnodes [] = []
devnodes (d ∷ ds) = elim (info_of d).devnode [ none ↦ devnodes ds | some n ↦ n ∷ devnodes ds ]

abbrev pub devnodes_of : Option (List Device) → Option (Result (List String))
devnodes_of none = none
devnodes_of (some final_devices) = some (ok (devnodes final_devices))

abbrev pub filter_equality_check : Bool → Bool → Bool
filter_equality_check eq is_match = (eq && is_match) || (not eq && not is_match)

-- A recursive search of a device and its parents.
unfoldable pub device_or_parents : (DeviceInfo → Bool) → Device → Bool
device_or_parents has (root i) = has i
device_or_parents has (child i p) =
    let parents = device_or_parents has p in if has i then true else parents

abbrev pub tags_key : String
tags_key = "TAGS"

abbrev pub covers : ℕ → Option (ℕ × ℕ) → Bool
covers len none = false
covers len (some (start, end)) = nat_eq start 0 && nat_eq end len

-- `Regex::new`, where none is an error, `Regex::find`, `str::len` and `str::split(':')`.
module _ {Regex : Type 0} (regex_new : String → Option Regex)
    (regex_find : Regex → String → Option (ℕ × ℕ)) (str_len : String → ℕ)
    (split_colon : String → List String) where
  -- The match that is found must be the whole text.
  abbrev pub is_regex_match : String → Regex → Bool
  is_regex_match test_value value_regex =
      covers (str_len test_value) (regex_find value_regex test_value)

  abbrev pub optional_match : Option String → Regex → Bool
  optional_match none r = false
  optional_match (some v) r = is_regex_match v r

  abbrev pub tag_match : Option String → Regex → Bool
  tag_match none r = false
  tag_match (some value) r = any (λ v. is_regex_match v r) (split_colon value)

  abbrev pub device_or_parents_have_subsystem : Device → Regex → Bool
  device_or_parents_have_subsystem d r = device_or_parents (λ i. optional_match i.subsystem r) d

  abbrev pub device_or_parents_have_attribute : Device → String → Regex → Bool
  device_or_parents_have_attribute d key r =
      device_or_parents (λ i. optional_match (get key i.attributes) r) d

  abbrev pub device_or_parents_have_driver : Device → Regex → Bool
  device_or_parents_have_driver d r = device_or_parents (λ i. optional_match i.driver r) d

  abbrev pub device_or_parents_have_sysname : Device → Regex → Bool
  device_or_parents_have_sysname d r = device_or_parents (λ i. is_regex_match i.sysname r) d

  abbrev pub device_or_parents_have_tag : Device → Regex → Bool
  device_or_parents_have_tag d r =
      device_or_parents (λ i. tag_match (get tags_key i.properties) r) d

  abbrev pub driver_check : Bool → Option String → Regex → Bool
  driver_check eq none r = not eq
  driver_check eq (some name) r = filter_equality_check eq (is_regex_match name r)

  -- Whether a filter that the enumerator cannot apply keeps a device; the first four fields come here
  -- with an inequality only.
  unfoldable pub keeps_device : Bool → Field → Regex → Device → Bool
  keeps_device eq devpath r d = not (is_regex_match (info_of d).devpath r)
  keeps_device eq kernel r d = not (is_regex_match (info_of d).sysname r)
  keeps_device eq tag r d = not (tag_match (get tags_key (info_of d).properties) r)
  keeps_device eq (property key) r d = not (optional_match (get key (info_of d).properties) r)
  keeps_device eq driver r d = driver_check eq (info_of d).driver r
  keeps_device eq subsystems r d = filter_equality_check eq (device_or_parents_have_subsystem d r)
  keeps_device eq (attributes key) r d =
      filter_equality_check eq (device_or_parents_have_attribute d key r)
  keeps_device eq drivers r d = filter_equality_check eq (device_or_parents_have_driver d r)
  keeps_device eq kernels r d = filter_equality_check eq (device_or_parents_have_sysname d r)
  keeps_device eq tags r d = filter_equality_check eq (device_or_parents_have_tag d r)
  keeps_device eq _ r d = true

  -- `none` is the panic at a value that is no regular expression.
  unfoldable pub filter_by_remaining_udev_filters :
      List UdevFilter → List Device → Option (List Device)
  filter_by_remaining_udev_filters [] devices = some devices
  filter_by_remaining_udev_filters (f ∷ fs) devices = elim (regex_new f.value) [
    | none ↦ none
    | some value_regex ↦
        filter_by_remaining_udev_filters fs
          (select (keeps_device (is_equality f.operation) f.field value_regex) devices)
  ]

  abbrev pub scanned_devnodes :
      List UdevFilter → Result (List Device) → Option (Result (List String))
  scanned_devnodes filters (err e) = some (err e)
  scanned_devnodes filters (ok devices) =
      devnodes_of (filter_by_remaining_udev_filters (select is_remaining_filter filters) devices)

  -- `scan_devices` answers for an enumerator that these calls were made on.
  unfoldable pub find_devices :
      (List EnumeratorCall → Result (List Device)) → List UdevFilter → Option (Result (List String))
  find_devices scan_devices udev_filters =
      scanned_devnodes udev_filters (scan_devices (enumerator_calls udev_filters))
