-- ===== src/Versions/Order.antt =====
-- CompareVersion is an order of versions.
use depengine.Prelude.{
  text_lt_irrefl, text_lt_trans, text_lt_total, ℕ, String, ◌≡◌, refl, Bool, true, false, List, [],
  ◌∷◌, arith, string_eq, nat_eq, Bool-cases, inl, inr, text_lt,
}
use depengine.Versions.{
  VersionLibrary, Comparison, less, same, greater, VersionToken, compare_numbers, compare_texts,
  compare_token, or_next, compare_tokens, without_zeros, version_tokens, compare_version,
}

abbrev pub opposite : Comparison → Comparison
opposite less = greater
opposite same = same
opposite greater = less

abbrev is_less : Comparison → Bool
is_less less = true
is_less _ = false

abbrev is_same : Comparison → Bool
is_same same = true
is_same _ = false

-- the comparison of the first and the third of three values
abbrev pub through : Comparison → Comparison → Comparison → Bool
through less less c = is_less c
through less same c = is_less c
through same less c = is_less c
through same same c = is_same c
through _ _ c = true

compare_numbers-opposite : (m n : ℕ) → compare_numbers n m ≡ opposite (compare_numbers m n)
compare_numbers-opposite m n = ground arith

text_lt-asymmetric : (s t : String) → text_lt s t ≡ true → text_lt t s ≡ false
text_lt-asymmetric s t h = elim (Bool-cases (text_lt t s)) [
  | inl back ↦ absurd (ground (arith, text_lt_trans s t s h back, text_lt_irrefl s))
  | inr fine ↦ fine
]

compare_texts-opposite : (s t : String) → compare_texts t s ≡ opposite (compare_texts s t)
compare_texts-opposite s t = ground (arith, text_lt-asymmetric s t)

or_next-opposite : (a b : Comparison) → or_next (opposite a) (opposite b) ≡ opposite (or_next a b)
or_next-opposite less b = refl
or_next-opposite same b = refl
or_next-opposite greater b = refl

compare_numbers-through :
    (m n k : ℕ) → through (compare_numbers m n) (compare_numbers n k) (compare_numbers m k) ≡ true
compare_numbers-through m n k = ground arith

compare_texts-through :
    (s t u : String) → through (compare_texts s t) (compare_texts t u) (compare_texts s u) ≡ true
compare_texts-through s t u =
    ground
      (arith, text_lt_trans s t u, text_lt-asymmetric s u, text_lt_total s t, text_lt_total t u)

through-greater : (a c : Comparison) → through a greater c ≡ true
through-greater less c = refl
through-greater same c = refl
through-greater greater c = refl

through-less : (b : Comparison) → through less b less ≡ true
through-less less = refl
through-less same = refl
through-less greater = refl

less-through : (a : Comparison) → through a less less ≡ true
less-through less = refl
less-through same = refl
less-through greater = refl

or_next-through :
    (a b c x y z : Comparison)
    → through a b c ≡ true
    → through x y z ≡ true
    → through (or_next a x) (or_next b y) (or_next c z) ≡ true
or_next-through a b c x y z h k = ground (arith, h, k)

module _ ⦃lib : VersionLibrary⦄ where
  open lib use {to_lower, big_value}

  compare_token-opposite : (a b : VersionToken) → compare_token b a ≡ opposite (compare_token a b)
  unfolding compare_token
  compare_token-opposite a b =
      let numbers = compare_numbers-opposite (big_value a.value) (big_value b.value) in
      let texts = compare_texts-opposite (to_lower a.value) (to_lower b.value) in
      elim (Bool-cases a.numeric) [
        | inl n ↦ elim (Bool-cases b.numeric) [ inl m ↦ rw (n, m) numbers | inr m ↦ rw (n, m) refl ]
        | inr n ↦ elim (Bool-cases b.numeric) [ inl m ↦ rw (n, m) refl | inr m ↦ rw (n, m) texts ]
      ]

  compare_token-through :
      (a b c : VersionToken)
      → through (compare_token a b) (compare_token b c) (compare_token a c) ≡ true
  unfolding compare_token
  compare_token-through a b c =
      let numbers =
        compare_numbers-through (big_value a.value) (big_value b.value) (big_value c.value) in
      let texts = compare_texts-through (to_lower a.value) (to_lower b.value) (to_lower c.value) in
      elim (Bool-cases a.numeric) [
        | inl n ↦ elim (Bool-cases b.numeric) [
          | inl m ↦ elim (Bool-cases c.numeric) [
            | inl o ↦ rw (n, m, o) numbers
            | inr o ↦
                rw (n, m, o)
                  (through-greater (compare_numbers (big_value a.value) (big_value b.value))
                    greater)
          ]
          | inr m ↦ rw (n, m) refl
        ]
        | inr n ↦ elim (Bool-cases b.numeric) [
          | inl m ↦ elim (Bool-cases c.numeric) [
            | inl o ↦
                rw (n, m, o)
                  (through-less (compare_numbers (big_value b.value) (big_value c.value)))
            | inr o ↦ rw (n, m, o) refl
          ]
          | inr m ↦ elim (Bool-cases c.numeric) [
            | inl o ↦
                rw (n, m, o) (less-through (compare_texts (to_lower a.value) (to_lower b.value)))
            | inr o ↦ rw (n, m, o) texts
          ]
        ]
      ]

  compare_tokens-opposite :
      (xs ys : List VersionToken) → compare_tokens ys xs ≡ opposite (compare_tokens xs ys)
  unfolding compare_tokens
  compare_tokens-opposite [] [] = refl
  compare_tokens-opposite [] (b ∷ ys) = refl
  compare_tokens-opposite (a ∷ xs) [] = refl
  compare_tokens-opposite (a ∷ xs) (b ∷ ys) =
      rw (compare_token-opposite a b, compare_tokens-opposite xs ys)
        (or_next-opposite (compare_token a b) (compare_tokens xs ys))

  compare_tokens-through :
      (xs ys zs : List VersionToken)
      → through (compare_tokens xs ys) (compare_tokens ys zs) (compare_tokens xs zs) ≡ true
  unfolding compare_tokens
  compare_tokens-through [] [] [] = refl
  compare_tokens-through [] [] (c ∷ zs) = refl
  compare_tokens-through [] (b ∷ ys) [] = refl
  compare_tokens-through [] (b ∷ ys) (c ∷ zs) = through-less (compare_tokens (b ∷ ys) (c ∷ zs))
  compare_tokens-through (a ∷ xs) [] zs = refl
  compare_tokens-through (a ∷ xs) (b ∷ ys) [] =
      through-greater (compare_tokens (a ∷ xs) (b ∷ ys)) greater
  compare_tokens-through (a ∷ xs) (b ∷ ys) (c ∷ zs) =
      or_next-through (compare_token a b) (compare_token b c) (compare_token a c)
        (compare_tokens xs ys) (compare_tokens ys zs) (compare_tokens xs zs)
        (compare_token-through a b c) (compare_tokens-through xs ys zs)

  -- CompareVersion is an order: with its arguments exchanged it gives the opposite result, and of two
  -- results that do not fall it gives the result for the outer versions.
  pub compare_version-through :
      (a b c : String)
      → (compare_version b a ≡ opposite (compare_version a b))
        × (through (compare_version a b) (compare_version b c) (compare_version a c) ≡ true)
  unfolding compare_version
  compare_version-through a b c =
      let xs = without_zeros (version_tokens a) in
      let ys = without_zeros (version_tokens b) in
      let zs = without_zeros (version_tokens c) in
      (compare_tokens-opposite xs ys, compare_tokens-through xs ys zs)
