-- ===== src/Plan/Environment.antt =====
-- internal/plan/environment.go and scope.go: installation scopes and environment targets.
pub mod Keys
use depengine.Prelude.{
  cut, String, ◌≡◌, refl, false, ◌&&◌, none, some, arith, ◌==◌, ◌!=◌, string_eq, nat_eq,
  String-discrete, if◌then◌else◌, Result, ok, err, ◌>>◌, fail_if, trim_space, contains_nul,
}
use native.Mathlib.Decide.{ℕ_discrete}
use Prim.Native.String.{◌++◌}
use text.Mathlib.TextLemmas.{nil-append, cons-append}

-- `unlisted ""` is the empty kind.
pub data EnvironmentKind : Type 0 where
  named prefix profile project : EnvironmentKind
  unlisted : String → EnvironmentKind

pub record EnvironmentTarget : Type 0 where
  pub kind : EnvironmentKind
  pub value : String

pub data Scope : Type 0 where
  user system : Scope

-- the string behind a kind
abbrev pub environment_text : EnvironmentKind → String
environment_text EnvironmentKind.named = "named"
environment_text EnvironmentKind.prefix = "prefix"
environment_text EnvironmentKind.profile = "profile"
environment_text EnvironmentKind.project = "project"
environment_text (EnvironmentKind.unlisted s) = s

-- EnvironmentKind(s)
abbrev pub read_environment : String → EnvironmentKind
read_environment s =
    if s == "named"
    then EnvironmentKind.named
    else if s == "prefix"
    then EnvironmentKind.prefix
    else if s == "profile"
    then EnvironmentKind.profile
    else if s == "project"
    then EnvironmentKind.project
    else EnvironmentKind.unlisted s

check_environment_kind : EnvironmentKind → Result (Unit {0})
check_environment_kind (EnvironmentKind.unlisted _) = err "unsupported environment target kind"
check_environment_kind _ = ok tt

-- EnvironmentTarget.Validate
unfoldable pub validate_environment : EnvironmentTarget → Result (Unit {0})
unfolding check_environment_kind
validate_environment e = do
  check_environment_kind e.kind
  fail_if (e.value == "") "environment target requires a value"
  fail_if (trim_space e.value != e.value) "environment target has surrounding whitespace"
  fail_if (contains_nul e.value) "environment target contains NUL"

-- EnvironmentTarget.CanonicalKey
unfoldable pub canonical_key : EnvironmentTarget → String
canonical_key e =
    if environment_text e.kind == "" && e.value == ""
    then ""
    else environment_text e.kind ++ ":" ++ e.value

-- the case FieldEnvironment of validateDesiredDriftValue
unfoldable pub read_canonical_key : String → Result EnvironmentTarget
unfolding canonical_key validate_environment
read_canonical_key value = elim (cut b':' value) [
  | none ↦ err "environment identity must use kind:value form"
  | some (kind, target) ↦ (do
    let e : EnvironmentTarget = record { kind = read_environment kind; value = target }
    validate_environment e
    fail_if (canonical_key e != value) "environment identity is not canonical"
    ok e)
]

-- ParseScope
unfoldable pub parse_scope : String → Result Scope
parse_scope raw =
    if trim_space raw != raw
    then err "scope has surrounding whitespace"
    else if raw == "user"
    then ok Scope.user
    else if raw == "system"
    then ok Scope.system
    else if raw == ""
    then err "scope is required"
    else err "unsupported portable scope"

cut_colon : (v : String) → cut b':' (":" ++ v) ≡ some ("", v)
unfolding cut ℕ_discrete
cut_colon v = rw (cons-append ":" "" v, nil-append v) refl

cut_before : (s v : String) → cut b':' s ≡ none → cut b':' (s ++ (":" ++ v)) ≡ some (s, v)
unfolding cut
cut_before String.[] v h = rw (nil-append (":" ++ v)) (cut_colon v)
cut_before (String.◌∷◌ c s) v h =
    rw (cons-append c s (":" ++ v)) (ground (arith, cut_before s v, h))

-- the kind's text, then the text behind the first colon
cut_key :
    (k : EnvironmentKind) (v : String)
    → check_environment_kind k ≡ ok tt
    → cut b':' (environment_text k ++ (":" ++ v)) ≡ some (environment_text k, v)
unfolding cut check_environment_kind ℕ_discrete
cut_key EnvironmentKind.named v h = cut_before "named" v refl
cut_key EnvironmentKind.prefix v h = cut_before "prefix" v refl
cut_key EnvironmentKind.profile v h = cut_before "profile" v refl
cut_key EnvironmentKind.project v h = cut_before "project" v refl
cut_key (EnvironmentKind.unlisted s) v h = cc h

read_environment-text :
    (k : EnvironmentKind)
    → check_environment_kind k ≡ ok tt
    → (read_environment (environment_text k) ≡ k) × ((environment_text k == "") ≡ false)
unfolding check_environment_kind String-discrete ℕ_discrete
read_environment-text EnvironmentKind.named h = (refl, refl)
read_environment-text EnvironmentKind.prefix h = (refl, refl)
read_environment-text EnvironmentKind.profile h = (refl, refl)
read_environment-text EnvironmentKind.project h = (refl, refl)
read_environment-text (EnvironmentKind.unlisted s) h = cc h

read_key :
    (k : EnvironmentKind) (v : String)
    → validate_environment (record { kind = k; value = v }) ≡ ok tt
    → check_environment_kind k ≡ ok tt
    → read_canonical_key (environment_text k ++ ":" ++ v) ≡ ok (record { kind = k; value = v })
unfolding read_canonical_key
read_key k v h listed =
    let (known, nonempty) = read_environment-text k listed in
    ground (arith, cut_key k v listed, known, h, nonempty)

-- The canonical key of a valid environment target reads back as this target.
pub read-canonical_key :
    (e : EnvironmentTarget)
    → validate_environment e ≡ ok tt
    → read_canonical_key (canonical_key e) ≡ ok e
unfolding canonical_key validate_environment
read-canonical_key e h =
    let listed : check_environment_kind e.kind ≡ ok tt = ground arith in
    let shown : canonical_key e ≡ environment_text e.kind ++ ":" ++ e.value =
      ground (arith, (read_environment-text e.kind listed).1) in
    rw shown (read_key e.kind e.value h listed)
