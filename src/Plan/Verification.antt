-- ===== src/Plan/Verification.antt =====
-- internal/plan/verification.go: how an observation of the host is reconciled with the desired
-- identity.
pub mod Validation
pub mod Fields
pub mod Desired
pub mod Parts
pub mod Reconciliation
pub mod Satisfied
use depengine.Prelude.{
  ℕ, String, ◌≡◌, refl, Bool, true, false, ◌&&◌, ◌||◌, not, Option, none, some, List, [], ◌∷◌, Eq,
  ◌==◌, ◌!=◌, string_eq, String-discrete, if◌then◌else◌, is_empty, contains, Result, ok, err, ◌>>=◌,
  ◌>>◌, fail_if, succeeds, trim_space, contains_nul,
}
use depengine.Plan.Reference.{
  ReferenceLibrary, validate_identity_reference, sanitize_lock_reference,
}
use depengine.Plan.Environment.{
  EnvironmentTarget, validate_environment, canonical_key, read_canonical_key, parse_scope,
}
use depengine.Plan.Digest.{validate_digest}
use depengine.Plan.Identity.{
  VersionMode, VersionIntent, ResolvedIdentity, validate_identity, unless_empty, forget_scope,
}
use depengine.Plan.Observation.{
  VerificationState, PresenceState, IdentityField, IdentityField-discrete, identity_field_eq,
  identity_fields, ObservedIdentity, Observation, IdentityDrift, VerificationResult,
  environment_key, desired_field, observed_field, desired_identity_fields, normalized_fields,
  check_fields, validate_field_set,
}

-- an error that is wrapped in another
abbrev pub wrap {ℓ} : {A : Type ℓ} → String → Result A → Result A
wrap context (err message) = err context
wrap context (ok value) = ok value

abbrev pub check_known_environment : Option EnvironmentTarget → Result (Unit {0})
check_known_environment none = ok tt
check_known_environment (some e) = wrap "observed environment" (validate_environment e)

check_trimmed : String → Result (Unit {0})
check_trimmed value =
    fail_if (trim_space value != value || contains_nul value)
      "observed field must not contain surrounding whitespace or NUL"

module _ ⦃lib : ReferenceLibrary⦄ where
  open lib use {to_lower}

  -- comparableIdentityValue
  unfoldable pub comparable : IdentityField → String → String
  comparable IdentityField.source value = sanitize_lock_reference value
  comparable IdentityField.registry value = sanitize_lock_reference value
  comparable IdentityField.digest value = to_lower value
  comparable _ value = value

  -- one field of validateKnownObservedIdentity
  unfoldable pub check_observed : ObservedIdentity → IdentityField → Result (Unit {0})
  unfolding check_trimmed
  check_observed i IdentityField.digest =
      unless_empty i.digest (wrap "observed digest" (validate_digest i.digest))
  check_observed i IdentityField.source =
      unless_empty i.source (wrap "observed source" (validate_identity_reference i.source))
  check_observed i IdentityField.registry =
      unless_empty i.registry (wrap "observed registry" (validate_identity_reference i.registry))
  check_observed i IdentityField.scope =
      unless_empty i.scope (wrap "observed scope" (forget_scope (parse_scope i.scope)))
  check_observed i IdentityField.environment = check_known_environment i.environment
  check_observed i IdentityField.package_name = check_trimmed i.package_name
  check_observed i IdentityField.version = check_trimmed i.version
  check_observed i IdentityField.revision = check_trimmed i.revision
  check_observed i IdentityField.architecture = check_trimmed i.architecture
  check_observed i IdentityField.platform = check_trimmed i.platform
  check_observed i (IdentityField.unlisted s) = ok tt

  -- validateKnownObservedIdentity
  unfoldable pub validate_known_observed : ObservedIdentity → List IdentityField → Result (Unit {0})
  unfolding check_observed
  validate_known_observed i [] = ok tt
  validate_known_observed i (field ∷ fields) =
      let rest = validate_known_observed i fields in check_observed i field >> rest

  -- the drift and the unverifiable fields that the loop of Reconcile adds, for the fields known
  unfoldable pub drift_of :
      ResolvedIdentity
      → ObservedIdentity
      → List IdentityField
      → List IdentityField
      → List IdentityDrift
  unfolding comparable desired_field observed_field
  drift_of desired observed known [] = []
  drift_of desired observed known (field ∷ fields) =
      let rest = drift_of desired observed known fields in
      let want = desired_field desired field in
      let got = observed_field observed field in
      let drift : IdentityDrift = record { field = field; desired = want; observed = got } in
      if not (contains known field)
      then rest
      else if comparable field want != comparable field got
      then drift ∷ rest
      else rest

  unfoldable pub unverifiable_of : List IdentityField → List IdentityField → List IdentityField
  unverifiable_of known [] = []
  unverifiable_of known (field ∷ fields) =
      let rest = unverifiable_of known fields in if contains known field then rest else field ∷ rest

  unfoldable pub broken_result : ObservedIdentity → String → VerificationResult
  broken_result observed detail = record {
    state = VerificationState.broken;
    observed = observed;
    known_fields = [];
    drift = [];
    unverifiable = [];
    detail = detail;
  }

  unfoldable pub or_else : String → String → String
  or_else detail default = if detail == "" then default else detail

  -- the state of a present target
  unfoldable pub compared_state : List IdentityDrift → List IdentityField → VerificationState
  compared_state drift unverifiable =
      if not (is_empty drift)
      then VerificationState.drifted
      else if not (is_empty unverifiable)
      then VerificationState.unknown
      else VerificationState.satisfied

  -- the switch of Reconcile on the presence, and what follows for a present target
  unfoldable pub reconcile_presence :
      PresenceState → ResolvedIdentity → Observation → VerificationResult
  unfolding compared_state drift_of unverifiable_of broken_result or_else normalized_fields
      desired_identity_fields
  reconcile_presence PresenceState.absent desired o = record {
    state = VerificationState.absent;
    observed = o.identity;
    known_fields = [];
    drift = [];
    unverifiable = [];
    detail = o.detail;
  }
  reconcile_presence PresenceState.unknown desired o = record {
    state = VerificationState.unknown;
    observed = o.identity;
    known_fields = [];
    drift = [];
    unverifiable = desired_identity_fields desired;
    detail =
        if is_empty (desired_identity_fields desired)
        then or_else o.detail "target presence could not be determined"
        else o.detail;
  }
  reconcile_presence PresenceState.broken desired o =
      broken_result o.identity (or_else o.detail "verification probe failed")
  reconcile_presence (PresenceState.unlisted s) desired o =
      broken_result o.identity "invalid presence state"
  reconcile_presence PresenceState.present desired o =
      let known = normalized_fields o.known_fields in
      let fields = desired_identity_fields desired in
      let drift = drift_of desired o.identity known fields in
      let unverifiable = unverifiable_of known fields in
      record {
        state = compared_state drift unverifiable;
        observed = o.identity;
        known_fields = known;
        drift = drift;
        unverifiable = unverifiable;
        detail = o.detail;
      }

  -- Reconcile behind its three checks: of the desired identity, of the known fields, and of the
  -- observed values
  unfoldable pub reconcile_checked :
      Result (Unit {0})
      → Result (Unit {0})
      → Result (Unit {0})
      → ResolvedIdentity
      → Observation
      → VerificationResult
  unfolding reconcile_presence broken_result
  reconcile_checked (err message) fields known desired o =
      broken_result o.identity "invalid desired identity"
  reconcile_checked (ok valid) (err message) known desired o = broken_result o.identity message
  reconcile_checked (ok valid) (ok set) (err message) desired o = broken_result o.identity message
  reconcile_checked (ok valid) (ok set) (ok known) desired o =
      reconcile_presence o.presence desired o

  -- Reconcile
  unfoldable pub reconcile : ResolvedIdentity → Observation → VerificationResult
  unfolding reconcile_checked validate_field_set validate_known_observed
  reconcile desired o =
      reconcile_checked (validate_identity desired) (validate_field_set o.known_fields)
        (validate_known_observed o.identity o.known_fields) desired o
