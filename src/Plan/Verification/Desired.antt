-- ===== src/Plan/Verification/Desired.antt =====
-- The fields of a valid desired identity are well-formed drift values.
use native.Mathlib.Decide.{ℕ_discrete}
use depengine.Prelude.{
  ==_refl, eq_of_==, String, ◌≡◌, refl, false, Option, none, some, arith, ◌==◌, ◌!=◌, string_eq,
  String-discrete, Bool-cases, inl, inr, ok, trim_space, contains_nul,
}
use depengine.Plan.Reference.{
  ReferenceLibrary, validate_identity_reference, identity_reference_trimmed,
}
use depengine.Plan.Environment.{EnvironmentTarget, canonical_key, read-canonical_key, parse_scope}
use depengine.Plan.Environment.Keys.{canonical_key-IsPlain}
use depengine.Plan.Digest.{validate_digest}
use depengine.Plan.Identity.{
  VersionMode, VersionIntent, ResolvedIdentity, validate_identity, unless_empty, forget_scope,
  check_environment, check_text, check_requested, validate_version_intent, check_mode,
}
use depengine.Plan.Observation.{
  exact_value, digest_value, IdentityField, identity_field_eq, desired_field, requested_exact,
  requested_digest, environment_key,
}
use depengine.Plan.Verification.Validation.{validate_drift_value, check_drift_syntax}

empty_named : (◌==◌ {A = String} "" "") ≡ false → ⊥
empty_named n = ground (arith, ==_refl {A = String} "")

module _ ⦃lib : ReferenceLibrary⦄ where
  record Parts (i : ResolvedIdentity) : Type 0 where
    package_name : check_text i.package_name ≡ ok tt
    version : check_text i.version ≡ ok tt
    revision : check_text i.revision ≡ ok tt
    architecture : check_text i.architecture ≡ ok tt
    platform : check_text i.platform ≡ ok tt
    digest : unless_empty i.digest (validate_digest i.digest) ≡ ok tt
    source : unless_empty i.source (validate_identity_reference i.source) ≡ ok tt
    registry : unless_empty i.registry (validate_identity_reference i.registry) ≡ ok tt
    requested : check_requested i.requested_version i ≡ ok tt
    scope : unless_empty i.scope (forget_scope (parse_scope i.scope)) ≡ ok tt
    environment : check_environment i.environment ≡ ok tt

  identity-Parts : (i : ResolvedIdentity) → validate_identity i ≡ ok tt → Parts i
  unfolding validate_identity
  identity-Parts i h = record {
    package_name = ground arith;
    version = ground arith;
    revision = ground arith;
    architecture = ground arith;
    platform = ground arith;
    digest = ground arith;
    source = ground arith;
    registry = ground arith;
    requested = ground arith;
    scope = ground arith;
    environment = ground arith;
  }

  -- the common checks on a drift value
  PlainValue : String → Type 0
  PlainValue value =
      ((value == "") ≡ false) × ((trim_space value != value) ≡ false) × (contains_nul value ≡ false)

  drift_value-ok :
      (field : IdentityField) (value : String)
      → PlainValue value
      → check_drift_syntax field value ≡ ok tt
      → validate_drift_value field value ≡ ok tt
  unfolding validate_drift_value PlainValue
  drift_value-ok field value (n, t, z) s = ground (arith, n, t, z, s)

  text_value :
      (value : String) → check_text value ≡ ok tt → (value == "") ≡ false → PlainValue value
  unfolding check_text PlainValue
  text_value value h n = (n, ground arith, ground arith)

  digest_syntax_value :
      (value : String) → validate_digest value ≡ ok tt → (value == "") ≡ false → PlainValue value
  unfolding validate_digest PlainValue
  digest_syntax_value value h n = (n, ground arith, ground arith)

  reference_value :
      (value : String)
      → validate_identity_reference value ≡ ok tt
      → contains_nul value ≡ false
      → (value == "") ≡ false
      → PlainValue value
  unfolding PlainValue
  reference_value value h z n = (n, identity_reference_trimmed value h, z)

  scope_value : (value : String) → forget_scope (parse_scope value) ≡ ok tt → PlainValue value
  unfolding parse_scope PlainValue String-discrete contains_nul ℕ_discrete
  scope_value value h = elim (Bool-cases (value == "user")) [
    | inl is_user ↦
        let equal : value ≡ "user" = eq_of_== value "user" is_user in
        (rw equal refl, ground arith, rw equal refl)
    | inr other ↦ elim (Bool-cases (value == "system")) [
      | inl is_system ↦
          let equal : value ≡ "system" = eq_of_== value "system" is_system in
          (rw equal refl, ground arith, rw equal refl)
      | inr neither ↦ absurd (ground arith)
    ]
  ]

  exact_plain :
      (mode : VersionMode) (value : String)
      → (value != trim_space value) ≡ false
      → contains_nul value ≡ false
      → (exact_value mode value == "") ≡ false
      → PlainValue (exact_value mode value)
  unfolding PlainValue
  exact_plain VersionMode.exact value t z n = (n, ground (arith, t), z)
  exact_plain VersionMode.latest value t z n = absurd (empty_named n)
  exact_plain VersionMode.constraint value t z n = absurd (empty_named n)
  exact_plain VersionMode.channel value t z n = absurd (empty_named n)
  exact_plain VersionMode.git_tag value t z n = absurd (empty_named n)
  exact_plain VersionMode.git_branch value t z n = absurd (empty_named n)
  exact_plain VersionMode.git_revision value t z n = absurd (empty_named n)
  exact_plain VersionMode.container_tag value t z n = absurd (empty_named n)
  exact_plain VersionMode.digest value t z n = absurd (empty_named n)
  exact_plain (VersionMode.unlisted s) value t z n = absurd (empty_named n)

  digest_valid :
      (mode : VersionMode) (v : VersionIntent)
      → check_mode mode v ≡ ok tt
      → (digest_value mode v.value == "") ≡ false
      → validate_digest (digest_value mode v.value) ≡ ok tt
  unfolding check_mode
  digest_valid VersionMode.digest v h n = ground arith
  digest_valid VersionMode.latest v h n = absurd (empty_named n)
  digest_valid VersionMode.exact v h n = absurd (empty_named n)
  digest_valid VersionMode.constraint v h n = absurd (empty_named n)
  digest_valid VersionMode.channel v h n = absurd (empty_named n)
  digest_valid VersionMode.git_tag v h n = absurd (empty_named n)
  digest_valid VersionMode.git_branch v h n = absurd (empty_named n)
  digest_valid VersionMode.git_revision v h n = absurd (empty_named n)
  digest_valid VersionMode.container_tag v h n = absurd (empty_named n)
  digest_valid (VersionMode.unlisted s) v h n = absurd (empty_named n)

  requested_version_value :
      (i : ResolvedIdentity) (o : Option VersionIntent)
      → check_requested o i ≡ ok tt
      → (requested_exact o == "") ≡ false
      → PlainValue (requested_exact o)
  unfolding check_requested validate_version_intent
  requested_version_value i none h n = absurd (empty_named n)
  requested_version_value i (some v) h n =
      exact_plain v.mode v.value (ground arith) (ground arith) n

  requested_digest_value :
      (i : ResolvedIdentity) (o : Option VersionIntent)
      → check_requested o i ≡ ok tt
      → (requested_digest o == "") ≡ false
      → validate_digest (requested_digest o) ≡ ok tt
  unfolding check_requested validate_version_intent
  requested_digest_value i none h n = absurd (empty_named n)
  requested_digest_value i (some v) h n = digest_valid v.mode v (ground arith) n

  environment_value :
      (o : Option EnvironmentTarget)
      → check_environment o ≡ ok tt
      → (environment_key o == "") ≡ false
      → validate_drift_value IdentityField.environment (environment_key o) ≡ ok tt
  unfolding check_drift_syntax PlainValue
  environment_value none h n = absurd (empty_named n)
  environment_value (some e) h n =
      let key = canonical_key-IsPlain e h in
      drift_value-ok IdentityField.environment (canonical_key e)
        (n, ground (arith, key.trimmed), key.no_nul) (ground (arith, read-canonical_key e h))

  -- Every field of a valid desired identity whose references have no NUL is a drift value.
  pub desired_field-ok :
      (i : ResolvedIdentity) (f : IdentityField)
      → validate_identity i ≡ ok tt
      → contains_nul i.source ≡ false
      → contains_nul i.registry ≡ false
      → (desired_field i f == "") ≡ false
      → validate_drift_value f (desired_field i f) ≡ ok tt
  unfolding desired_field check_drift_syntax
  desired_field-ok i IdentityField.package_name h s r n =
      drift_value-ok _ i.package_name
        (text_value i.package_name (identity-Parts i h).package_name n) refl
  desired_field-ok i IdentityField.revision h s r n =
      drift_value-ok _ i.revision (text_value i.revision (identity-Parts i h).revision n) refl
  desired_field-ok i IdentityField.architecture h s r n =
      drift_value-ok _ i.architecture
        (text_value i.architecture (identity-Parts i h).architecture n) refl
  desired_field-ok i IdentityField.platform h s r n =
      drift_value-ok _ i.platform (text_value i.platform (identity-Parts i h).platform n) refl
  desired_field-ok i IdentityField.version h s r n = elim (Bool-cases (i.version != "")) [
    | inl own ↦ rw own (
        drift_value-ok _ i.version
          (text_value i.version (identity-Parts i h).version (ground arith)) refl)
    | inr other ↦ rw other (
        drift_value-ok _ (requested_exact i.requested_version)
          (requested_version_value i i.requested_version (identity-Parts i h).requested
            (ground (arith, other)))
          refl)
  ]
  desired_field-ok i IdentityField.digest h s r n = elim (Bool-cases (i.digest != "")) [
    | inl own ↦
        let named : (i.digest == "") ≡ false = ground arith in
        let valid : validate_digest i.digest ≡ ok tt =
          ground (arith, (identity-Parts i h).digest) in
        rw own (drift_value-ok _ i.digest (digest_syntax_value i.digest valid named) valid)
    | inr other ↦
        let value = requested_digest i.requested_version in
        let named : (value == "") ≡ false = ground (arith, other) in
        let valid =
          requested_digest_value i i.requested_version (identity-Parts i h).requested named in
        rw other (drift_value-ok _ value (digest_syntax_value value valid named) valid)
  ]
  desired_field-ok i IdentityField.source h s r n =
      let valid : validate_identity_reference i.source ≡ ok tt =
        ground (arith, (identity-Parts i h).source) in
      drift_value-ok _ i.source (reference_value i.source valid s n) valid
  desired_field-ok i IdentityField.registry h s r n =
      let valid : validate_identity_reference i.registry ≡ ok tt =
        ground (arith, (identity-Parts i h).registry) in
      drift_value-ok _ i.registry (reference_value i.registry valid r n) valid
  desired_field-ok i IdentityField.scope h s r n =
      let valid : forget_scope (parse_scope i.scope) ≡ ok tt =
        ground (arith, (identity-Parts i h).scope) in
      drift_value-ok _ i.scope (scope_value i.scope valid) valid
  desired_field-ok i IdentityField.environment h s r n =
      environment_value i.environment (identity-Parts i h).environment n
  desired_field-ok i (IdentityField.unlisted t) h s r n = absurd (empty_named n)
