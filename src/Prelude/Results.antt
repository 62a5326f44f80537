-- ===== src/Prelude/Results.antt =====
-- A Go result with an error, and the chain `if err != nil { return err }`.
use mathlib.Core.Path.{◌≡◌, refl}
use mathlib.Core.Logic.{◌⊎◌, inl, inr}

pub data Result {ℓ} (E A : Type ℓ) : Type ℓ where
  err : E → Result E A
  ok : A → Result E A

module _ {ℓ} {E A B : Type ℓ} where
  infixl 5 ◌>>=◌
  abbrev pub ◌>>=◌ : Result E A → (A → Result E B) → Result E B
  err failure >>= next = err failure
  ok value >>= next = next value

  -- A chain that succeeds, taken apart.
  pub >>=-eq-ok :
      (first : Result E A) (next : A → Result E B) {answer : B}
      → (first >>= next) ≡ ok answer
      → (value : A) × (first ≡ ok value) × (next value ≡ ok answer)
  >>=-eq-ok (err failure) next done = cc
  >>=-eq-ok (ok value) next done = (value, refl, done)

-- To split on the result of a call that also returns a state.
pub Result-cases {ℓ κ} :
    {E A : Type ℓ} {S : Type κ} (call : Result E A × S)
    → ((failure : E) × (call.0 ≡ err failure)) ⊎ ((value : A) × (call.0 ≡ ok value))
Result-cases (err failure, state) = inl (failure, refl)
Result-cases (ok value, state) = inr (value, refl)

-- To split on the result of a call that returns no state.
pub Result-split {ℓ} :
    {E A : Type ℓ} (result : Result E A)
    → ((failure : E) × (result ≡ err failure)) ⊎ ((value : A) × (result ≡ ok value))
Result-split (err failure) = inl (failure, refl)
Result-split (ok value) = inr (value, refl)
