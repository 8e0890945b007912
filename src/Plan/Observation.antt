-- ===== src/Plan/Observation.antt =====
-- internal/plan/verification.go: observations of the host, verification results, and the fields in
-- which they are compared.
use depengine.Prelude.{
  String, not, Option, none, some, List, [], ◌∷◌, Eq, ◌!=◌, string_eq, String-discrete,
  if◌then◌else◌, contains, Result, ok, ◌>>◌, fail_if,
}
use depengine.Plan.Environment.{EnvironmentTarget, canonical_key}
use depengine.Plan.Identity.{VersionMode, VersionIntent, ResolvedIdentity}

pub data VerificationState : Type 0 where
  satisfied absent drifted unknown broken : VerificationState
  unlisted : String → VerificationState

pub data PresenceState : Type 0 where
  present absent unknown broken : PresenceState
  unlisted : String → PresenceState

pub data IdentityField : Type 0 where
  package_name version revision digest source registry scope environment architecture platform :
      IdentityField
  unlisted : String → IdentityField

unfoldable pub IdentityField-discrete : Discrete IdentityField
IdentityField-discrete = hlevel String-discrete

instance abbrev pub identity_field_eq : Eq IdentityField
identity_field_eq = record { decide = IdentityField-discrete }

abbrev pub identity_fields : List IdentityField
identity_fields =
    IdentityField.package_name ∷ IdentityField.version ∷ IdentityField.revision
    ∷ IdentityField.digest ∷ IdentityField.source ∷ IdentityField.registry ∷ IdentityField.scope
    ∷ IdentityField.environment ∷ IdentityField.architecture ∷ IdentityField.platform ∷ []

pub record ObservedIdentity : Type 0 where
  pub package_name : String
  pub version : String
  pub revision : String
  pub digest : String
  pub source : String
  pub registry : String
  pub scope : String
  pub environment : Option EnvironmentTarget
  pub architecture : String
  pub platform : String

pub record Observation : Type 0 where
  pub presence : PresenceState
  pub identity : ObservedIdentity
  pub known_fields : List IdentityField
  pub detail : String

pub record IdentityDrift : Type 0 where
  pub field : IdentityField
  pub desired : String
  pub observed : String

pub record VerificationResult : Type 0 where
  pub state : VerificationState
  pub observed : ObservedIdentity
  pub known_fields : List IdentityField
  pub drift : List IdentityDrift
  pub unverifiable : List IdentityField
  pub detail : String

abbrev pub environment_key : Option EnvironmentTarget → String
environment_key none = ""
environment_key (some e) = canonical_key e

-- the version that an exact request stands for, and the digest of a digest request
abbrev pub exact_value : VersionMode → String → String
exact_value VersionMode.exact value = value
exact_value _ value = ""

abbrev pub digest_value : VersionMode → String → String
digest_value VersionMode.digest value = value
digest_value _ value = ""

abbrev pub requested_exact : Option VersionIntent → String
requested_exact none = ""
requested_exact (some v) = exact_value v.mode v.value

abbrev pub requested_digest : Option VersionIntent → String
requested_digest none = ""
requested_digest (some v) = digest_value v.mode v.value

unfoldable pub desired_field : ResolvedIdentity → IdentityField → String
desired_field i IdentityField.package_name = i.package_name
desired_field i IdentityField.version =
    if i.version != "" then i.version else requested_exact i.requested_version
desired_field i IdentityField.revision = i.revision
desired_field i IdentityField.digest =
    if i.digest != "" then i.digest else requested_digest i.requested_version
desired_field i IdentityField.source = i.source
desired_field i IdentityField.registry = i.registry
desired_field i IdentityField.scope = i.scope
desired_field i IdentityField.environment = environment_key i.environment
desired_field i IdentityField.architecture = i.architecture
desired_field i IdentityField.platform = i.platform
desired_field i (IdentityField.unlisted s) = ""

unfoldable pub observed_field : ObservedIdentity → IdentityField → String
observed_field i IdentityField.package_name = i.package_name
observed_field i IdentityField.version = i.version
observed_field i IdentityField.revision = i.revision
observed_field i IdentityField.digest = i.digest
observed_field i IdentityField.source = i.source
observed_field i IdentityField.registry = i.registry
observed_field i IdentityField.scope = i.scope
observed_field i IdentityField.environment = environment_key i.environment
observed_field i IdentityField.architecture = i.architecture
observed_field i IdentityField.platform = i.platform
observed_field i (IdentityField.unlisted s) = ""

unfoldable pub named_fields : ResolvedIdentity → List IdentityField → List IdentityField
named_fields i [] = []
named_fields i (field ∷ fields) =
    let rest = named_fields i fields in if desired_field i field != "" then field ∷ rest else rest

-- desiredIdentityFields
unfoldable pub desired_identity_fields : ResolvedIdentity → List IdentityField
unfolding named_fields
desired_identity_fields i = named_fields i identity_fields

unfoldable pub select_fields : List IdentityField → List IdentityField → List IdentityField
select_fields fields [] = []
select_fields fields (canonical ∷ rest) =
    let more = select_fields fields rest in
    if contains fields canonical then canonical ∷ more else more

-- normalizedFields; identityFields has no duplicates, so none is selected twice
unfoldable pub normalized_fields : List IdentityField → List IdentityField
unfolding select_fields
normalized_fields fields = select_fields fields identity_fields

-- validateFieldSet, with the fields seen before
unfoldable pub check_fields : List IdentityField → List IdentityField → Result (Unit {0})
check_fields seen [] = ok tt
check_fields seen (field ∷ fields) =
    let rest = check_fields (field ∷ seen) fields in
    (do
      fail_if (not (contains identity_fields field)) "invalid identity field"
      fail_if (contains seen field) "duplicate identity field"
      rest)

unfoldable pub validate_field_set : List IdentityField → Result (Unit {0})
unfolding check_fields
validate_field_set fields = check_fields [] fields
