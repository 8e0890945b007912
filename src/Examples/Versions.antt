-- ===== src/Examples/Versions.antt =====
-- The comparison of versions in ASCII.
use Prim.Native.Char.{Char, code}
use Prim.Native.String.{[], ◌∷◌}
use depengine.Prelude.{
  ℕ, ◌+◌, ◌-◌, String, ◌≡◌, refl, Bool, true, ◌&&◌, ◌||◌, leb, String-discrete, trim_space,
}
use native.Mathlib.Decide.{ℕ_discrete}
use depengine.Versions.{VersionLibrary, less, same, compare_version}
use depengine.Versions.Order.{opposite, through, compare_version-through}

abbrev between : ℕ → ℕ → Char → Bool
between low high c = leb low (code c) && leb (code c) high

abbrev ten_times : ℕ → ℕ
ten_times n = n + n + n + n + n + n + n + n + n + n

-- the decimal value, behind the digits read before
abbrev decimal : ℕ → String → ℕ
decimal n [] = n
decimal n (c ∷ s) = decimal (ten_times n + (code c - 0x30)) s

instance abbrev ascii_library : VersionLibrary
ascii_library = record {
  is_letter = λ c. between 0x61 0x7a c || between 0x41 0x5a c;
  is_digit = λ c. between 0x30 0x39 c;
  to_lower = λ s. s;
  big_value = decimal 0;
}

numbers_not_texts : compare_version "1.2" "1.10" ≡ less
unfolding compare_version trim_space ℕ_discrete String-discrete
numbers_not_texts = refl

zeros_dropped : compare_version "14.0" "14" ≡ same
unfolding compare_version trim_space ℕ_discrete String-discrete
zeros_dropped = refl

compare_version-through_example :
    (compare_version "1.2" "1.0rc" ≡ opposite (compare_version "1.0rc" "1.2"))
    × (through
          (compare_version "1.0rc" "1.2")
          (compare_version "1.2" "1.10")
          (compare_version "1.0rc" "1.10")
        ≡ true)
compare_version-through_example = compare_version-through "1.0rc" "1.2" "1.10"
