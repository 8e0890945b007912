-- ===== src/Prelude/Results.antt =====
-- Go's `(T, error)`. An error is the static part of its message: the quoted arguments are left out,
-- and an error that wraps another is the innermost one.
use Prim.Native.String.{String}
use mathlib.Core.Logic.{◌⊎◌, inl, inr}
use mathlib.Core.Path.{◌≡◌, refl}
use mathlib.Core.Bool.{Bool, true, false}

pub data Result {ℓ} (A : Type ℓ) : Type ℓ where
  err : String → Result A
  ok : A → Result A

-- `if b { return err }`
abbrev pub fail_if : Bool → String → Result (Unit {0})
fail_if b message = elim b [ true ↦ err message | false ↦ ok tt ]

-- `err == nil`
abbrev pub succeeds {ℓ} : {A : Type ℓ} → Result A → Bool
succeeds (err message) = false
succeeds (ok value) = true

infixl 5 ◌>>=◌ ◌>>◌
-- `if err != nil { return err }`, and on with the value
abbrev pub ◌>>=◌ {κ ℓ} : {T : Type κ} {U : Type ℓ} → Result T → (T → Result U) → Result U
err message >>= next = err message
ok value >>= next = next value

abbrev pub ◌>>◌ {κ ℓ} : {T : Type κ} {U : Type ℓ} → Result T → Result U → Result U
first >> second = first >>= (λ ignored. second)

-- A chain that succeeds has a first part that succeeds.
pub >>=-eq-ok {κ ℓ} :
    {T : Type κ} {U : Type ℓ} (first : Result T) (next : T → Result U) {out : U}
    → (first >>= next) ≡ ok out
    → (value : T) × (first ≡ ok value) × (next value ≡ ok out)
>>=-eq-ok (err message) next e = cc e
>>=-eq-ok (ok value) next e = (value, refl, e)

pub Result-cases {ℓ} :
    {T : Type ℓ} (m : Result T)
    → ((value : T) × (m ≡ ok value)) ⊎ ((message : String) × (m ≡ err message))
Result-cases (err message) = inr (message, refl)
Result-cases (ok value) = inl (value, refl)
