-- ===== src/Webhook/Validation.antt =====
-- The answer to an admission request, and what is left out of the comparison.
use akri.Base.{Bool, true, false, Option, none, some, ◌≡◌, refl, ◌⊎◌, inl, inr}
use akri.Webhook.{
  Value, Mismatch, Checked, accepted, rejected, check, filter_configuration, no_data, mismatch,
  AdmissionResponse, AdmissionRequest, respond, compare_filtered, validate_object,
  validate_configuration,
}
use akri.Webhook.Paths.{path_of}
use akri.Webhook.Agreement.{Disagrees, IsKept, check_iff, check-Disagrees}

module _ {Number : Type 0} (number_eq : Number → Number → Bool) (as_f64 : Number → Option Number)
    (reserialize : Value Number → Option (Value Number)) where
  -- The answer to a request, by its object, the object read and written again, and the object filtered.
  pub data Answers (rqst : AdmissionRequest Number) : Option AdmissionResponse → Type 0 where
    empty :
        rqst.request_object ≡ none
        → Answers rqst (some (record { allowed = false; status = some no_data; uid = rqst.uid }))
    admitted :
        (raw d v : Value Number)
        → rqst.request_object ≡ some raw
        → reserialize raw ≡ some d
        → filter_configuration as_f64 raw ≡ some v
        → IsKept number_eq v d
        → Answers rqst (some (record { allowed = true; status = none; uid = rqst.uid }))
    refused :
        (raw d v : Value Number) (m : Mismatch)
        → rqst.request_object ≡ some raw
        → reserialize raw ≡ some d
        → filter_configuration as_f64 raw ≡ some v
        → Disagrees number_eq v d (path_of m)
        → Answers rqst
            (some (record { allowed = false; status = some (mismatch m); uid = rqst.uid }))
    panics :
        (raw : Value Number)
        → rqst.request_object ≡ some raw
        → (reserialize raw ≡ none) ⊎ (filter_configuration as_f64 raw ≡ none)
        → Answers rqst none

  compared-Answers :
      (rqst : AdmissionRequest Number) (raw : Value Number) (d v : Option (Value Number))
      → rqst.request_object ≡ some raw
      → reserialize raw ≡ d
      → filter_configuration as_f64 raw ≡ v
      → Answers rqst (compare_filtered number_eq as_f64 reserialize rqst.uid d v)
  compared-Answers rqst raw none v o e f = panics raw o (inl e)
  compared-Answers rqst raw (some d) none o e f = panics raw o (inr f)
  compared-Answers rqst raw (some d) (some v) o e f = go (check number_eq v d) refl
    where
      go :
          (r : Checked)
          → check number_eq v d ≡ r
          → Answers rqst (some (respond number_eq as_f64 reserialize rqst.uid r))
      go accepted c = admitted raw d v o e f ((check_iff number_eq v d).0 c)
      go (rejected m) c = refused raw d v m o e f (check-Disagrees number_eq v d m c)

  -- A request is admitted exactly if its filtered object is kept when it is read and written again; else
  -- the status of the refusal names where it is not, or that there is no object. The answer has the
  -- request's id. It panics only where the object cannot be read or filtered.
  pub validate_configuration-Answers :
      (rqst : AdmissionRequest Number)
      → Answers rqst (validate_configuration number_eq as_f64 reserialize rqst)
  unfolding validate_configuration
  validate_configuration-Answers rqst = go rqst.request_object refl
    where
      go :
          (o : Option (Value Number))
          → rqst.request_object ≡ o
          → Answers rqst (validate_object number_eq as_f64 reserialize rqst.uid o)
      go none e = empty e
      go (some raw) e =
          compared-Answers rqst raw (reserialize raw) (filter_configuration as_f64 raw) e refl refl
