-- ===== src/Versions.antt =====
-- internal/platform/version.go: the comparison of the versions of hosts. Go's Unicode tables and what
-- big.Int reads from digits are the fields of `VersionLibrary`. Tokens are texts, not ranges of one.
use Prim.Native.Char.{Char, code}
use Prim.Native.String.{◌++◌, [], ◌∷◌}
use depengine.Prelude.{
  ℕ, String, ◌≡◌, refl, Bool, true, false, ◌&&◌, ◌||◌, not, List, ◌==◌, ◌!=◌, string_eq, nat_eq,
  String-discrete, ltb, if◌then◌else◌, is_empty, trim_space, text_lt,
}
use mathlib.Core.List
pub mod Order

pub record VersionLibrary : Type 0 where
  -- unicode.IsLetter and unicode.IsDigit
  pub is_letter : Char → Bool
  pub is_digit : Char → Bool
  -- strings.ToLower
  pub to_lower : String → String
  -- the value that SetString(digits, 10) leaves in a big.Int
  pub big_value : String → ℕ

-- the results -1, 0 and 1
pub data Comparison : Type 0 where
  less same greater : Comparison

pub record VersionToken : Type 0 where
  pub value : String
  pub numeric : Bool

-- a pending run, where there is one, before the other tokens
flush : String → Bool → List VersionToken → List VersionToken
flush pending numeric tokens =
    if pending == ""
    then tokens
    else List.◌∷◌ (record { value = pending; numeric = numeric }) tokens

all_zero : String → Bool
all_zero [] = true
all_zero (c ∷ s) = let rest = all_zero s in code c == 0x30 && rest

is_zero_numeric_token : VersionToken → Bool
unfolding all_zero
is_zero_numeric_token t = t.numeric && all_zero t.value

-- the loops that drop trailing zero tokens
unfoldable pub without_zeros : List VersionToken → List VersionToken
unfolding is_zero_numeric_token
without_zeros List.[] = List.[]
without_zeros (List.◌∷◌ t tokens) =
    let rest = without_zeros tokens in
    if is_zero_numeric_token t && is_empty rest then List.[] else List.◌∷◌ t rest

abbrev pub compare_numbers : ℕ → ℕ → Comparison
compare_numbers m n =
    if ltb m n then Comparison.less else if ltb n m then Comparison.greater else Comparison.same

-- strings.Compare
abbrev pub compare_texts : String → String → Comparison
compare_texts s t =
    if text_lt s t
    then Comparison.less
    else if text_lt t s
    then Comparison.greater
    else Comparison.same

abbrev pub or_next : Comparison → Comparison → Comparison
or_next Comparison.same next = next
or_next found next = found

module _ ⦃lib : VersionLibrary⦄ where
  open lib use {is_letter, is_digit, to_lower, big_value}

  -- the loop over the runes, with the pending run and its kind
  tokens_from : String → Bool → String → List VersionToken
  unfolding flush
  tokens_from pending numeric [] = flush pending numeric List.[]
  tokens_from pending numeric (c ∷ s) =
      let digit = is_digit c in
      let skipped = tokens_from "" numeric s in
      let begun = tokens_from (c ∷ []) digit s in
      let longer = tokens_from (pending ++ c ∷ []) numeric s in
      if not (is_letter c) && not digit
      then flush pending numeric skipped
      else if pending == ""
      then begun
      else if (digit && not numeric) || (not digit && numeric)
      then flush pending numeric begun
      else longer

  unfoldable pub version_tokens : String → List VersionToken
  unfolding tokens_from
  version_tokens s = tokens_from "" false (trim_space s)

  -- one iteration of CompareVersion
  unfoldable pub compare_token : VersionToken → VersionToken → Comparison
  compare_token a b =
      if a.numeric && b.numeric
      then compare_numbers (big_value a.value) (big_value b.value)
      else if a.numeric
      then Comparison.greater
      else if b.numeric
      then Comparison.less
      else compare_texts (to_lower a.value) (to_lower b.value)

  -- the loop over the tokens
  unfoldable pub compare_tokens : List VersionToken → List VersionToken → Comparison
  unfolding compare_token
  compare_tokens List.[] List.[] = Comparison.same
  compare_tokens List.[] (List.◌∷◌ b ys) = Comparison.less
  compare_tokens (List.◌∷◌ a xs) List.[] = Comparison.greater
  compare_tokens (List.◌∷◌ a xs) (List.◌∷◌ b ys) =
      let rest = compare_tokens xs ys in or_next (compare_token a b) rest

  -- CompareVersion
  unfoldable pub compare_version : String → String → Comparison
  unfolding compare_tokens without_zeros version_tokens
  compare_version a b =
      compare_tokens (without_zeros (version_tokens a)) (without_zeros (version_tokens b))
