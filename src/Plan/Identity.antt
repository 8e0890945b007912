-- ===== src/Plan/Identity.antt =====
-- internal/plan/version.go and plan.go: requested versions, and the desired identity of a tool. Where
-- several fields are malformed, Go's map order decides which one is reported; the model has one order.
use depengine.Prelude.{
  String, Bool, true, false, ◌&&◌, ◌||◌, Option, none, some, ◌==◌, ◌!=◌, string_eq, if◌then◌else◌,
  Result, ok, err, ◌>>◌, fail_if, trim_space, contains_nul,
}
use depengine.Plan.Reference.{ReferenceLibrary, validate_identity_reference}
use depengine.Plan.Environment.{EnvironmentTarget, validate_environment, Scope, parse_scope}
use depengine.Plan.Digest.{validate_digest, canonical_digest}

-- The empty mode and any other spelling are `unlisted`.
pub data VersionMode : Type 0 where
  latest exact constraint channel git_tag git_branch git_revision container_tag digest : VersionMode
  unlisted : String → VersionMode

pub record ChannelSelector : Type 0 where
  pub name : String
  pub track : String
  pub risk : String

pub record VersionIntent : Type 0 where
  pub mode : VersionMode
  pub value : String
  pub channel : Option ChannelSelector

pub record ResolvedIdentity : Type 0 where
  pub package_name : String
  pub requested_version : Option VersionIntent
  pub version : String
  pub revision : String
  pub digest : String
  pub source : String
  pub registry : String
  pub scope : String
  pub environment : Option EnvironmentTarget
  pub architecture : String
  pub platform : String

unfoldable pub check_version_mode : VersionMode → Result (Unit {0})
check_version_mode (VersionMode.unlisted s) =
    if s == "" then err "version mode is required" else ok tt
check_version_mode _ = ok tt

unfoldable pub check_channel : Option ChannelSelector → Result (Unit {0})
check_channel none = ok tt
check_channel (some c) = do
  fail_if
      (c.name != trim_space c.name || c.track != trim_space c.track || c.risk != trim_space c.risk)
      "channel fields must not have surrounding whitespace"
  fail_if (contains_nul c.name || contains_nul c.track || contains_nul c.risk)
      "channel fields must not contain NUL"

abbrev has_channel : Option ChannelSelector → Bool
has_channel none = false
has_channel (some c) = true

no_channel_fields : Option ChannelSelector → Bool
no_channel_fields none = true
no_channel_fields (some c) = c.name == "" && c.track == "" && c.risk == ""

unfoldable pub check_valued : VersionIntent → Result (Unit {0})
check_valued v = do
  fail_if (v.value == "") "version intent requires a value"
  fail_if (has_channel v.channel) "version intent must not include channel fields"

-- a text that has surrounding whitespace or NUL
unfoldable pub check_text : String → Result (Unit {0})
check_text value = do
  fail_if (trim_space value != value) "field must not contain surrounding whitespace"
  fail_if (contains_nul value) "field contains NUL"

abbrev pub check_environment : Option EnvironmentTarget → Result (Unit {0})
check_environment none = ok tt
check_environment (some e) = validate_environment e

-- a check that an empty value passes
abbrev pub unless_empty : String → Result (Unit {0}) → Result (Unit {0})
unless_empty value check = if value == "" then ok tt else check

abbrev pub forget_scope : Result Scope → Result (Unit {0})
forget_scope (err message) = err message
forget_scope (ok scope) = ok tt

module _ ⦃lib : ReferenceLibrary⦄ where
  unfoldable pub check_mode : VersionMode → VersionIntent → Result (Unit {0})
  unfolding check_valued no_channel_fields
  check_mode VersionMode.latest v =
      fail_if (v.value != "" || has_channel v.channel)
        "latest version intent must not include a value or channel"
  check_mode VersionMode.channel v = do
    fail_if (v.value != "") "channel version intent uses channel fields, not value"
    fail_if (no_channel_fields v.channel)
        "channel version intent requires at least one channel field"
  check_mode VersionMode.digest v = do check_valued v; validate_digest v.value
  check_mode (VersionMode.unlisted s) v = err "unsupported version mode"
  check_mode _ v = check_valued v

  -- VersionIntent.Validate
  unfoldable pub validate_version_intent : VersionIntent → Result (Unit {0})
  unfolding check_version_mode check_channel check_mode
  validate_version_intent v = do
    check_version_mode v.mode
    fail_if (v.value != trim_space v.value) "version value must not have surrounding whitespace"
    fail_if (contains_nul v.value) "version value must not contain NUL"
    check_channel v.channel
    check_mode v.mode v

  -- the requested version against the concrete one
  unfoldable pub check_agreement : VersionMode → String → ResolvedIdentity → Result (Unit {0})
  check_agreement VersionMode.exact value i =
      fail_if (i.version != "" && i.version != value)
        "requested exact version does not match resolved identity version"
  check_agreement VersionMode.digest value i =
      fail_if (i.digest != "" && canonical_digest value != canonical_digest i.digest)
        "requested digest does not match resolved identity digest"
  check_agreement _ value i = ok tt

  unfoldable pub check_requested : Option VersionIntent → ResolvedIdentity → Result (Unit {0})
  unfolding check_agreement validate_version_intent
  check_requested none i = ok tt
  check_requested (some v) i = do validate_version_intent v; check_agreement v.mode v.value i

  -- ResolvedIdentity.Validate
  unfoldable pub validate_identity : ResolvedIdentity → Result (Unit {0})
  unfolding check_text check_requested
  validate_identity i = do
    check_text i.package_name
    check_text i.version
    check_text i.revision
    check_text i.architecture
    check_text i.platform
    unless_empty i.digest (validate_digest i.digest)
    unless_empty i.source (validate_identity_reference i.source)
    unless_empty i.registry (validate_identity_reference i.registry)
    check_requested i.requested_version i
    unless_empty i.scope (forget_scope (parse_scope i.scope))
    check_environment i.environment
