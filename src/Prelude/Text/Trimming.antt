-- ===== src/Prelude/Text/Trimming.antt =====
-- Texts put together from parts that need no trimming.
use Prim.Native.Char.{Char, code}
use Prim.Native.String.{String, [], ◌∷◌, ◌++◌}
use mathlib.Core.Path.{◌≡◌, refl, sym, ap, ◌∙◌}
use mathlib.Core.Bool.{false, ◌&&◌, ◌||◌}
use mathlib.Core.Logic.{inl, inr}
use native.Mathlib.Omega.{arith}
use text.Mathlib.TextLemmas.{nil-append, cons-append}
use depengine.Prelude.Tests.{◌==◌, nat_eq, string_eq, Bool-cases, eq_of_==}
use depengine.Prelude.Text.{is_space, trim_left, trim_right, trim_space, contains_nul}

pub contains_nul-append :
    (s t : String) → contains_nul (s ++ t) ≡ (contains_nul s || contains_nul t)
unfolding contains_nul
contains_nul-append [] t = rw (nil-append t) refl
contains_nul-append (c ∷ s) t = rw (cons-append c s t) (ground (arith, contains_nul-append s t))

trim_right-idempotent : (s : String) → trim_right (trim_right s) ≡ trim_right s
unfolding trim_right
trim_right-idempotent [] = refl
trim_right-idempotent (c ∷ s) = elim (Bool-cases (is_space (code c) && trim_right s == "")) [
  | inl gone ↦
      let none_left : trim_right (c ∷ s) ≡ "" = ground (arith, gone) in
      ap trim_right none_left ∙ sym none_left
  | inr kept ↦
      let same = trim_right-idempotent s in
      let shown : trim_right (c ∷ s) ≡ c ∷ trim_right s = ground (arith, kept) in
      let again : trim_right (c ∷ trim_right s) ≡ c ∷ trim_right s = ground (arith, kept, same) in
      ap trim_right shown ∙ again ∙ sym shown
]

trim_right_of_trim_space : (s : String) → trim_space s ≡ s → trim_right s ≡ s
unfolding trim_space
trim_right_of_trim_space s e = sym (ap trim_right e) ∙ trim_right-idempotent (trim_left s) ∙ e

cons_nonempty : (c : Char) (s : String) → (c ∷ s == "") ≡ false
cons_nonempty c s = elim (Bool-cases (c ∷ s == "")) [
  | inl same ↦ let equal : c ∷ s ≡ "" = eq_of_== (c ∷ s) "" same in absurd (cc equal)
  | inr other ↦ other
]

pub append_nonempty : (s t : String) → (t == "") ≡ false → (s ++ t == "") ≡ false
append_nonempty [] t h = rw (nil-append t) h
append_nonempty (c ∷ s) t h = rw (cons-append c s t) (cons_nonempty c (s ++ t))

trim_right-append :
    (s t : String) → trim_right t ≡ t → (t == "") ≡ false → trim_right (s ++ t) ≡ s ++ t
unfolding trim_right
trim_right-append [] t e h = rw (nil-append t) e
trim_right-append (c ∷ s) t e h =
    rw (cons-append c s t) (ground (arith, trim_right-append s t, append_nonempty s t h))

-- a text that starts with a visible character and ends with a trimmed text
pub trim_space-append :
    (c : Char) (s t : String)
    → is_space (code c) ≡ false
    → trim_space t ≡ t
    → (t == "") ≡ false
    → trim_space ((c ∷ s) ++ t) ≡ (c ∷ s) ++ t
unfolding trim_space trim_left trim_right
trim_space-append c s t shown e h =
    let whole : trim_right ((c ∷ s) ++ t) ≡ (c ∷ s) ++ t =
      trim_right-append (c ∷ s) t (trim_right_of_trim_space t e) h in
    let kept : trim_left ((c ∷ s) ++ t) ≡ (c ∷ s) ++ t =
      rw (cons-append c s t) (ground (arith, shown)) in
    ap trim_right kept ∙ whole
