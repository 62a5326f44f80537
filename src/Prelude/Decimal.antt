-- ===== src/Prelude/Decimal.antt =====
-- `%d` of a non-negative number: its decimal digits, and that they determine it.
use Prim.Native.Nat.{ℕ, zero, suc, ◌+◌, ◌-◌, ◌*◌, ◌/◌, ◌%◌, ◌<◌}
use mathlib.Core.Path.{◌≡◌, sym, ap, ◌∙◌}
use mathlib.Core.List.{[], ◌∷◌}
use native.Mathlib.Omega.{arith}
use sentinel_fs.Prelude.Tests.{ltb, if◌then◌else◌, Bool-cases}
use sentinel_fs.Prelude.Text.{Str}
use mathlib.Core.Logic.{inl, inr}

-- The digits of `n` in front of `rest`, on fuel above `n`.
digits : ℕ → ℕ → Str → Str
digits zero n rest = rest
digits (suc fuel) n rest =
    let more = digits fuel (n / 10) ((48 + n % 10) ∷ rest) in
    if ltb n 10 then (48 + n) ∷ rest else more

unfoldable pub itoa : ℕ → Str
unfolding digits
itoa n = digits (suc n) n []

value : ℕ → Str → ℕ
value a [] = a
value a (d ∷ ds) = value (a * 10 + (d - 48)) ds

value-digits : (fuel n : ℕ) (rest : Str) → n < fuel → value 0 (digits fuel n rest) ≡ value n rest
unfolding digits value
value-digits zero n rest h = elim h [ ]
value-digits (suc fuel) n rest h = elim (Bool-cases (ltb n 10)) [
  | inl small ↦ rw small (ap (λ a. value a rest) (omega arith))
  | inr big ↦ rw big (
      value-digits fuel (n / 10) ((48 + n % 10) ∷ rest) (ground arith)
      ∙ ap (λ a. value a rest) (omega arith))
]

value-itoa : (n : ℕ) → value 0 (itoa n) ≡ n
unfolding itoa value
value-itoa n = value-digits (suc n) n [] (omega arith)

pub itoa_injective : (m n : ℕ) → itoa m ≡ itoa n → m ≡ n
itoa_injective m n h = sym (value-itoa m) ∙ ap (value 0) h ∙ value-itoa n
