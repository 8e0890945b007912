-- ===== src/Plan/Reference.antt =====
-- internal/plan/source.go and lock.go: references that must not carry credentials. Go's net/url and
-- regexp packages, its Unicode tables and the redaction of free text by regular expressions are the
-- fields of `ReferenceLibrary`.
use Prim.Native.Char.{code}
use Prim.Native.String.{◌++◌}
use mathlib.Core.Option
use depengine.Prelude.{
  arith, ◌≡◌, ℕ, String, Bool, false, ◌||◌, ◌&&◌, not, Option, none, some, List, [], ◌∷◌, ◌==◌,
  ◌!=◌, string_eq, nat_eq, trim_space, contains_text, has_suffix, cut, contains, if◌then◌else◌,
  Result, ok, err, ◌>>◌, fail_if, succeeds,
}

-- A parsed URL: `query` has the parameters of Query() with their values, and `location` what the
-- program passes through unread (path, opaque part).
pub record Url : Type 0 where
  pub scheme : String
  pub user : Option (String × Option String)
  pub host : String
  pub location : String
  pub query : List (String × String)
  pub fragment : String

pub record ReferenceLibrary : Type 0 where
  pub valid_utf8 : String → Bool
  pub parse_url : String → Option Url
  pub format_url : Url → String
  pub to_lower : String → String
  -- scpLikeReference.MatchString
  pub scp_like : String → Bool
  -- placeholderToken.ReplaceAllString(raw, "x")
  pub replace_placeholders : String → String
  -- url.QueryUnescape, `none` where it fails
  pub query_unescape : String → Option String
  -- run.RedactSensitiveText
  pub redact : String → String

-- sensitiveQueryKeys of internal/run/redact.go
abbrev sensitive_query_keys : List String
sensitive_query_keys =
    "token" ∷ "access_token" ∷ "auth_token" ∷ "refresh_token" ∷ "id_token" ∷ "api_key" ∷ "apikey"
    ∷ "password" ∷ "passwd" ∷ "secret" ∷ "client_secret" ∷ "credential" ∷ "signature" ∷ "sig"
    ∷ "x-amz-signature" ∷ "x-amz-credential" ∷ "x-amz-security-token" ∷ "x-goog-signature"
    ∷ "x-goog-credential" ∷ []

is_separator : ℕ → Bool
is_separator c = c == b'&' || c == b';'

-- strings.FieldsFunc at '&' and ';': `pending` is the part read so far
fields_from : String → String → List String
unfolding is_separator
fields_from pending String.[] = if pending == "" then [] else pending ∷ []
fields_from pending (String.◌∷◌ c s) =
    let rest = fields_from "" s in
    let longer = fields_from (pending ++ String.◌∷◌ c String.[]) s in
    if is_separator (code c) then (if pending == "" then rest else pending ∷ rest) else longer

fragment_parts : String → List String
unfolding fields_from
fragment_parts raw = fields_from "" raw

-- strings.Join(parts, "&")
join_fragment : List String → String
join_fragment [] = ""
join_fragment (part ∷ []) = part
join_fragment (part ∷ next ∷ parts) = part ++ "&" ++ join_fragment (next ∷ parts)

before_equals : Option (String × String) → String → String
before_equals none part = part
before_equals (some (key, value)) part = key

module _ ⦃lib : ReferenceLibrary⦄ where
  open lib use {
    valid_utf8, parse_url, format_url, to_lower, scp_like, replace_placeholders, query_unescape,
    redact,
  }

  -- run.IsSensitiveQueryKey
  sensitive_key : String → Bool
  sensitive_key key = contains sensitive_query_keys (to_lower key)

  -- the name of one part of a fragment, unescaped where that succeeds
  fragment_key : String → String
  unfolding before_equals
  fragment_key part =
      let key = before_equals (cut b'=' part) part in Option.get_or (query_unescape key) key

  is_ssh_scheme : String → Bool
  is_ssh_scheme scheme = to_lower scheme == "ssh" || has_suffix (to_lower scheme) "+ssh"

  any_sensitive_key : List (String × String) → Bool
  any_sensitive_key [] = false
  any_sensitive_key ((key, value) ∷ query) =
      let rest = any_sensitive_key query in sensitive_key key || rest

  any_sensitive_part : List String → Bool
  any_sensitive_part [] = false
  any_sensitive_part (part ∷ parts) =
      let rest = any_sensitive_part parts in sensitive_key (fragment_key part) || rest

  first_sensitive_url_parameter : String → Bool
  unfolding any_sensitive_part fragment_parts fragment_key sensitive_key
  first_sensitive_url_parameter raw = any_sensitive_part (fragment_parts raw)

  check_user : String → Option (String × Option String) → Result (Unit {0})
  unfolding is_ssh_scheme
  check_user scheme none = ok tt
  check_user scheme (some (name, some password)) =
      err "literal URL credentials are forbidden; use secret_ref"
  check_user scheme (some (name, none)) =
      fail_if (not (is_ssh_scheme scheme)) "literal URL credentials are forbidden; use secret_ref"

  check_url : Option Url → Result (Unit {0})
  unfolding check_user any_sensitive_key first_sensitive_url_parameter
  check_url none = err "invalid reference"
  check_url (some u) = do
    check_user u.scheme u.user
    fail_if (any_sensitive_key u.query) "sensitive query parameter is forbidden; use secret_ref"
    fail_if (first_sensitive_url_parameter u.fragment)
        "sensitive URL fragment parameter is forbidden; use secret_ref"

  unfoldable pub validate_credential_free_reference : String → Result (Unit {0})
  unfolding check_url
  validate_credential_free_reference raw = do
    fail_if (not (valid_utf8 raw)) "reference must be valid UTF-8"
    fail_if (trim_space raw != raw) "reference must not contain leading or trailing whitespace"
    if not (contains_text raw "://") && scp_like raw
        then ok tt
        else check_url (parse_url (replace_placeholders raw))

  is_network_scheme : String → Bool
  is_network_scheme s = s == "http" || s == "https" || s == "ssh" || s == "git"

  check_absolute : Option Url → Result (Unit {0})
  unfolding is_network_scheme
  check_absolute none = err "URL must be absolute"
  check_absolute (some u) = do
    fail_if (u.scheme == "") "URL must be absolute"
    fail_if (is_network_scheme (to_lower u.scheme) && u.host == "") "network URL requires a host"

  validate_credential_free_url : String → Result (Unit {0})
  unfolding validate_credential_free_reference check_absolute
  validate_credential_free_url raw = do
    validate_credential_free_reference raw
    check_absolute (parse_url (replace_placeholders raw))

  pub validate_identity_reference : String → Result (Unit {0})
  unfolding validate_credential_free_url
  validate_identity_reference raw = do
    validate_credential_free_reference raw
    if contains_text raw "://" then validate_credential_free_url raw else ok tt

  -- A reference that identifies something is trimmed.
  pub identity_reference_trimmed :
      (raw : String) → validate_identity_reference raw ≡ ok tt → (trim_space raw != raw) ≡ false
  unfolding validate_identity_reference validate_credential_free_reference
  identity_reference_trimmed raw h = ground arith

  remove_sensitive_parts : List String → List String
  remove_sensitive_parts [] = []
  remove_sensitive_parts (part ∷ parts) =
      let rest = remove_sensitive_parts parts in
      if sensitive_key (fragment_key part) then rest else part ∷ rest

  sanitize_url_fragment : String → String
  unfolding first_sensitive_url_parameter remove_sensitive_parts
  sanitize_url_fragment raw =
      if first_sensitive_url_parameter raw
      then join_fragment (remove_sensitive_parts (fragment_parts raw))
      else raw

  remove_sensitive_keys : List (String × String) → List (String × String)
  remove_sensitive_keys [] = []
  remove_sensitive_keys ((key, value) ∷ query) =
      let rest = remove_sensitive_keys query in
      if sensitive_key key then rest else (key, value) ∷ rest

  -- SSH login names are kept; every other user part is dropped
  sanitize_user : String → Option (String × Option String) → Option (String × Option String)
  unfolding is_ssh_scheme
  sanitize_user scheme (some (name, none)) =
      if is_ssh_scheme scheme && name != "" then some (name, none) else none
  sanitize_user scheme _ = none

  scp_host : String → String → Option (String × String) → String
  scp_host raw login none = raw
  scp_host raw login (some (host, path)) =
      if host == "" then raw else login ++ "@" ++ to_lower host ++ ":" ++ path

  scp_login : String → Option (String × String) → String
  unfolding scp_host
  scp_login raw none = raw
  scp_login raw (some (login, rest)) =
      if login == "" || rest == "" then raw else scp_host raw login (cut b':' rest)

  canonical_scp_reference : String → String
  unfolding scp_login
  canonical_scp_reference raw = scp_login raw (cut b'@' raw)

  -- a text that does not parse as a URL with a scheme and a host
  opaque_reference : String → String
  unfolding validate_identity_reference
  opaque_reference raw = if succeeds (validate_identity_reference raw) then raw else redact raw

  sanitize_url : Option Url → String → String
  unfolding opaque_reference remove_sensitive_keys sanitize_url_fragment sanitize_user
  sanitize_url none raw = opaque_reference raw
  sanitize_url (some u) raw =
      if u.scheme == "" || u.host == ""
      then opaque_reference raw
      else (let scheme = to_lower u.scheme in
          format_url (record u {
            scheme = scheme;
            host = if contains_text u.host "%" then u.host else to_lower u.host;
            user = sanitize_user scheme u.user;
            query = remove_sensitive_keys u.query;
            fragment = sanitize_url_fragment u.fragment;
          }))

  pub sanitize_lock_reference : String → String
  unfolding canonical_scp_reference sanitize_url
  sanitize_lock_reference raw =
      if raw == ""
      then ""
      else if scp_like raw
      then canonical_scp_reference raw
      else sanitize_url (parse_url raw) raw
