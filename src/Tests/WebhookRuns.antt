-- ===== src/Tests/WebhookRuns.antt =====
-- Runs of the webhook, with the natural numbers for numbers.
use akri.Base.{ℕ, Option, some, ◌≡◌, ◌↔◌, refl, nat_eq}
use akri.Webhook.{
  Value, null, number, string, array, object, nil, end, field, unequal, at_key, accepted, rejected,
  check, remove_field, set_field, filter_configuration, AdmissionRequest, validate_configuration,
}
use akri.Webhook.Paths.{path_of}
use akri.Webhook.Agreement.{Disagrees, IsKept, check_iff, check-Disagrees}
use akri.Webhook.Filter.{IsFiltered, filter_configuration-IsFiltered}
use akri.Webhook.Validation.{Answers, validate_configuration-Answers}

abbrev spec : Value ℕ → Value ℕ
spec capacity = object (field "capacity" capacity end)

abbrev metadata : Value ℕ
metadata = object (field "managedFields" null (field "generation" (number 1) end))

abbrev raw : Value ℕ
raw = object (field "metadata" metadata (field "spec" (spec (number 5)) end))

-- The program keeps all but the capacity, which it reads as 6.
abbrev reserialize : Value ℕ → Option (Value ℕ)
reserialize v = some (
    object (
      field "metadata" (object (field "generation" (number 1) end))
        (field "spec" (spec (number 6)) end)))

check_iff_example :
    (check nat_eq (spec (number 5)) (spec (number 5)) ≡ accepted)
    ↔ IsKept nat_eq (spec (number 5)) (spec (number 5))
check_iff_example = check_iff nat_eq (spec (number 5)) (spec (number 5))

differs : check nat_eq (spec (number 5)) (spec (number 6)) ≡ rejected (at_key "capacity" unequal)
unfolding check
differs = refl

-- An empty array is accepted for a text.
array_for_string : check nat_eq (array nil) (string "text") ≡ accepted
unfolding check
array_for_string = refl

check-Disagrees_example :
    Disagrees nat_eq (spec (number 5)) (spec (number 6)) (path_of (at_key "capacity" unequal))
check-Disagrees_example =
    check-Disagrees nat_eq (spec (number 5)) (spec (number 6)) (at_key "capacity" unequal) differs

abbrev filtered : Value ℕ
filtered = object (
    field "metadata" (object (field "generation" (number 1) end))
      (field "spec" (spec (number 5)) end))

filters : filter_configuration some raw ≡ some filtered
unfolding filter_configuration remove_field set_field
filters = refl

filter_configuration-IsFiltered_example : IsFiltered some raw filtered
filter_configuration-IsFiltered_example = filter_configuration-IsFiltered some raw filtered filters

abbrev request : AdmissionRequest ℕ
request = record { uid = "1"; request_object = some raw }

validate_configuration-Answers_example :
    Answers nat_eq some reserialize request (validate_configuration nat_eq some reserialize request)
validate_configuration-Answers_example =
    validate_configuration-Answers nat_eq some reserialize request
