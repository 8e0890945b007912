-- ===== src/Plan/Environment/Keys.antt =====
-- The canonical key of an environment target is a well-formed text.
use Prim.Native.Char.{Char, code}
use Prim.Native.String.{◌++◌, ◌∷◌}
use native.Mathlib.Decide.{ℕ_discrete}
use depengine.Prelude.{
  eq_of_==, contains_nul-append, trim_space-append, append_nonempty, is_space, String, ◌≡◌, refl,
  false, arith, ◌==◌, string_eq, ok, trim_space, contains_nul,
}
use depengine.Plan.Environment.{
  EnvironmentKind, EnvironmentTarget, environment_text, check_environment_kind,
  validate_environment, canonical_key, read_environment-text,
}

-- a text that is trimmed, without NUL, and not empty
pub record IsPlain (s : String) : Type 0 where
  pub trimmed : trim_space s ≡ s
  pub no_nul : contains_nul s ≡ false
  pub nonempty : (s == "") ≡ false

IsPlain-append :
    (c : Char) (s t : String)
    → is_space (code c) ≡ false
    → contains_nul (c ∷ s) ≡ false
    → IsPlain t
    → IsPlain ((c ∷ s) ++ t)
IsPlain-append c s t shown n p = record {
  trimmed = trim_space-append c s t shown p.trimmed p.nonempty;
  no_nul = ground (arith, contains_nul-append (c ∷ s) t, p.no_nul);
  nonempty = append_nonempty (c ∷ s) t p.nonempty;
}

IsPlain-key :
    (k : EnvironmentKind) (v : String)
    → check_environment_kind k ≡ ok tt
    → IsPlain v
    → IsPlain (environment_text k ++ ":" ++ v)
unfolding check_environment_kind is_space contains_nul ℕ_discrete
IsPlain-key EnvironmentKind.named v h p =
    IsPlain-append "n" "amed" (":" ++ v) refl refl (IsPlain-append ":" "" v refl refl p)
IsPlain-key EnvironmentKind.prefix v h p =
    IsPlain-append "p" "refix" (":" ++ v) refl refl (IsPlain-append ":" "" v refl refl p)
IsPlain-key EnvironmentKind.profile v h p =
    IsPlain-append "p" "rofile" (":" ++ v) refl refl (IsPlain-append ":" "" v refl refl p)
IsPlain-key EnvironmentKind.project v h p =
    IsPlain-append "p" "roject" (":" ++ v) refl refl (IsPlain-append ":" "" v refl refl p)
IsPlain-key (EnvironmentKind.unlisted s) v h p = absurd (cc h)

pub canonical_key-IsPlain :
    (e : EnvironmentTarget) → validate_environment e ≡ ok tt → IsPlain (canonical_key e)
unfolding canonical_key validate_environment
canonical_key-IsPlain e h =
    let listed : check_environment_kind e.kind ≡ ok tt = ground arith in
    let value : IsPlain e.value = record {
      trimmed = eq_of_== (trim_space e.value) e.value (ground arith);
      no_nul = ground arith;
      nonempty = ground arith;
    } in
    let shown : canonical_key e ≡ environment_text e.kind ++ ":" ++ e.value =
      ground (arith, (read_environment-text e.kind listed).1) in
    rw shown (IsPlain-key e.kind e.value listed value)
