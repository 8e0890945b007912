-- ===== src/Plan/Verification/Validation.antt =====
-- internal/plan/verification.go: what a verification result must satisfy.
use depengine.Prelude.{
  String, ◌&&◌, ◌||◌, not, List, [], ◌∷◌, ◌==◌, ◌!=◌, string_eq, is_empty, contains, Result, ok,
  err, ◌>>◌, fail_if, trim_space, contains_nul,
}
use depengine.Plan.Reference.{ReferenceLibrary, validate_identity_reference}
use depengine.Plan.Environment.{read_canonical_key, parse_scope}
use depengine.Plan.Digest.{validate_digest}
use depengine.Plan.Identity.{forget_scope}
use depengine.Plan.Observation.{
  VerificationState, IdentityField, identity_field_eq, identity_fields, IdentityDrift,
  VerificationResult, observed_field, validate_field_set,
}
use depengine.Plan.Verification.{comparable, validate_known_observed}

module _ ⦃lib : ReferenceLibrary⦄ where
  -- validateDesiredDriftValue, behind its common checks
  unfoldable pub check_drift_syntax : IdentityField → String → Result (Unit {0})
  check_drift_syntax IdentityField.digest value = validate_digest value
  check_drift_syntax IdentityField.source value = validate_identity_reference value
  check_drift_syntax IdentityField.registry value = validate_identity_reference value
  check_drift_syntax IdentityField.scope value = forget_scope (parse_scope value)
  check_drift_syntax IdentityField.environment value = elim (read_canonical_key value) [
    | err message ↦ err message
    | ok target ↦ ok tt
  ]
  check_drift_syntax _ value = ok tt

  -- validateDesiredDriftValue
  unfoldable pub validate_drift_value : IdentityField → String → Result (Unit {0})
  unfolding check_drift_syntax
  validate_drift_value field value = do
    fail_if (value == "") "value is required"
    fail_if (trim_space value != value || contains_nul value)
        "value must not contain surrounding whitespace or NUL"
    check_drift_syntax field value

  -- the first loop of Validate, over the unverifiable fields
  unfoldable pub check_disjoint : List IdentityField → List IdentityField → Result (Unit {0})
  check_disjoint known [] = ok tt
  check_disjoint known (field ∷ fields) =
      let rest = check_disjoint known fields in
      fail_if (contains known field) "identity field cannot be both known and unverifiable" >> rest

  unfoldable pub check_drift :
      VerificationResult → List IdentityField → List IdentityDrift → Result (Unit {0})
  unfolding validate_drift_value
  check_drift r seen [] = ok tt
  check_drift r seen (d ∷ drift) =
      let rest = check_drift r (d.field ∷ seen) drift in
      (do
        fail_if (not (contains identity_fields d.field)) "invalid drift field"
        fail_if (contains seen d.field) "duplicate drift field"
        fail_if (not (contains r.known_fields d.field))
            "drift field must be present in known fields"
        fail_if (contains r.unverifiable d.field) "drift field cannot also be unverifiable"
        validate_drift_value d.field d.desired
        fail_if (comparable d.field d.desired == comparable d.field d.observed)
            "drift field has equivalent desired and observed values"
        fail_if
            (comparable d.field d.observed
              != comparable d.field (observed_field r.observed d.field))
            "drift field observed value does not match authoritative observed identity"
        rest)

  unfoldable pub check_listed_state : VerificationState → Result (Unit {0})
  check_listed_state (VerificationState.unlisted s) = err "invalid verification state"
  check_listed_state _ = ok tt

  -- the last switch of Validate
  unfoldable pub check_reported_state : VerificationState → VerificationResult → Result (Unit {0})
  check_reported_state VerificationState.satisfied r =
      fail_if (not (is_empty r.drift) || not (is_empty r.unverifiable))
        "satisfied verification cannot contain drift or unverifiable fields"
  check_reported_state VerificationState.drifted r =
      fail_if (is_empty r.drift) "drifted verification requires at least one drift field"
  check_reported_state VerificationState.unknown r = do
    fail_if (not (is_empty r.drift)) "unknown verification cannot contain known identity drift"
    fail_if (is_empty r.unverifiable && r.detail == "")
        "unknown verification requires unverifiable fields or detail"
  check_reported_state VerificationState.absent r =
      fail_if
        (not (is_empty r.known_fields) || not (is_empty r.drift) || not (is_empty r.unverifiable))
        "absent verification cannot contain authoritative identity state"
  check_reported_state VerificationState.broken r = do
    fail_if
        (not (is_empty r.known_fields) || not (is_empty r.drift) || not (is_empty r.unverifiable))
        "broken verification cannot contain authoritative identity state"
    fail_if (r.detail == "") "broken verification requires detail"
  check_reported_state (VerificationState.unlisted s) r = ok tt

  -- VerificationResult.Validate
  unfoldable pub validate_verification : VerificationResult → Result (Unit {0})
  unfolding check_listed_state validate_field_set validate_known_observed check_disjoint check_drift
      check_reported_state
  validate_verification r = do
    check_listed_state r.state
    validate_field_set r.known_fields
    validate_field_set r.unverifiable
    validate_known_observed r.observed r.known_fields
    check_disjoint r.known_fields r.unverifiable
    check_drift r [] r.drift
    check_reported_state r.state r
