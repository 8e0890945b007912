-- ===== src/Examples/Environment.antt =====
-- The canonical key of an environment target, and scopes, at concrete texts.
use depengine.Prelude.{◌≡◌, refl, string_eq, nat_eq, String-discrete, ok, trim_space, contains_nul}
use native.Mathlib.Decide.{ℕ_discrete}
use depengine.Plan.Environment.{
  EnvironmentKind, EnvironmentTarget, Scope, validate_environment, canonical_key,
  read_canonical_key, read-canonical_key, parse_scope,
}

abbrev tools_environment : EnvironmentTarget
tools_environment = record { kind = EnvironmentKind.named; value = "tools" }

tools-valid : validate_environment tools_environment ≡ ok tt
unfolding validate_environment String-discrete trim_space contains_nul ℕ_discrete
tools-valid = refl

user_scope : parse_scope "user" ≡ ok Scope.user
unfolding parse_scope String-discrete trim_space ℕ_discrete
user_scope = refl

read-canonical_key_example :
    read_canonical_key (canonical_key tools_environment) ≡ ok tools_environment
read-canonical_key_example = read-canonical_key tools_environment tools-valid
