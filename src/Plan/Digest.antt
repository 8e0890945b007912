-- ===== src/Plan/Digest.antt =====
-- internal/plan/lock.go: the syntax of concrete digests, algorithm:hex, and their canonical form.
use Prim.Native.Char.{code}
use Prim.Native.String.{◌++◌, [], ◌∷◌}
use depengine.Plan.Reference.{ReferenceLibrary}
use depengine.Prelude.{
  ℕ, suc, ◌+◌, String, Bool, true, false, ◌&&◌, ◌||◌, not, Option, none, some, ◌==◌, ◌!=◌,
  string_eq, nat_eq, leb, if◌then◌else◌, Result, err, ◌>>◌, fail_if, trim_space, contains_nul, cut,
}

is_letter_or_digit : ℕ → Bool
is_letter_or_digit c =
    leb 0x61 c && leb c 0x7a || leb 0x41 c && leb c 0x5a || leb 0x30 c && leb c 0x39

is_digest_mark : ℕ → Bool
is_digest_mark c = c == b'-' || c == b'_' || c == b'.' || c == b'+'

-- the loop behind the first code point
algorithm_rest : String → Bool
unfolding is_letter_or_digit is_digest_mark
algorithm_rest [] = true
algorithm_rest (c ∷ s) =
    let rest = algorithm_rest s in (is_letter_or_digit (code c) || is_digest_mark (code c)) && rest

-- validDigestAlgorithm
unfoldable pub valid_digest_algorithm : String → Bool
unfolding algorithm_rest is_letter_or_digit
valid_digest_algorithm [] = false
valid_digest_algorithm (c ∷ s) = is_letter_or_digit (code c) && algorithm_rest s

is_hex : ℕ → Bool
is_hex c = leb 0x30 c && leb c 0x39 || leb 0x61 c && leb c 0x66 || leb 0x41 c && leb c 0x46

-- the number of bytes that hex.DecodeString returns, or none where it fails
unfoldable pub decoded_length : String → Option ℕ
unfolding is_hex
decoded_length [] = some 0
decoded_length (c ∷ []) = none
decoded_length (c ∷ d ∷ s) =
    let rest = decoded_length s in
    if is_hex (code c) && is_hex (code d)
    then elim rest [ none ↦ none | some n ↦ some (suc n) ]
    else none

-- strings.EqualFold(s, "auto"); no other letter folds to one of these
fold_code : ℕ → ℕ
fold_code c = if leb 0x41 c && leb c 0x5a then c + 32 else c

folds_to : String → String → Bool
unfolding fold_code
folds_to [] [] = true
folds_to [] (d ∷ t) = false
folds_to (c ∷ s) [] = false
folds_to (c ∷ s) (d ∷ t) = let rest = folds_to s t in fold_code (code c) == code d && rest

-- wantBytes, 0 for an algorithm that is not listed
want_bytes : String → ℕ
want_bytes algorithm =
    if algorithm == "md5"
    then 16
    else if algorithm == "sha1"
    then 20
    else if algorithm == "sha256"
    then 32
    else if algorithm == "sha512"
    then 64
    else 0

check_length : ℕ → Option ℕ → Result (Unit {0})
check_length want none = err "value must be hexadecimal"
check_length want (some n) =
    fail_if (want != 0 && n != want) "digest has a wrong number of hexadecimal bytes"

module _ ⦃lib : ReferenceLibrary⦄ where
  open lib use {to_lower}

  check_digest_parts : Option (String × String) → Result (Unit {0})
  unfolding valid_digest_algorithm folds_to want_bytes check_length decoded_length
  check_digest_parts none = err "must use algorithm:hex syntax"
  check_digest_parts (some (algorithm, value)) = do
    fail_if (algorithm == "" || value == "") "must use algorithm:hex syntax"
    fail_if (folds_to value "auto") "must be concrete in a lock; :auto is unresolved"
    fail_if (trim_space algorithm != algorithm) "algorithm is malformed"
    fail_if (not (valid_digest_algorithm algorithm)) "algorithm is malformed"
    check_length (want_bytes (to_lower algorithm)) (decoded_length value)

  -- validateConcreteDigestSyntax
  unfoldable pub validate_digest : String → Result (Unit {0})
  unfolding check_digest_parts
  validate_digest value = do
    fail_if (trim_space value != value || contains_nul value)
        "must not contain surrounding whitespace or NUL"
    check_digest_parts (cut b':' value)

  canonical_parts : String → Option (String × String) → String
  canonical_parts value none = value
  canonical_parts value (some (algorithm, hex)) = to_lower algorithm ++ ":" ++ to_lower hex

  -- canonicalDigest
  unfoldable pub canonical_digest : String → String
  unfolding canonical_parts
  canonical_digest value = canonical_parts value (cut b':' value)
