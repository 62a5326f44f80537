-- ===== src/Float64/Format.antt =====
-- How `fmt` prints a float64 with a fixed number of digits: `%.2f` and `%+.2f`.
use sentinel_fs.Prelude.{
  ℕ, zero, suc, ◌+◌, ◌-◌, ◌*◌, ◌/◌, ◌%◌, ◌^◌, [], ◌∷◌, ◌++◌, Bool, ◌&&◌, ◌||◌, ltb, eqb, Str, bytes,
  itoa, length, if◌then◌else◌,
}
use sentinel_fs.Float64.{Float64, is_nan}
use sentinel_fs.Float64.Arith.{is_infinite, is_negative, units}

-- x * 10 ^ digits, rounded to the nearest whole number, to the even one of two.
unfoldable pub scaled : ℕ → Float64 → ℕ
unfolding units
scaled digits x =
    let p = units x * 10 ^ digits in
    let r = p / 2 ^ 1074 in
    let rest = 2 * (p % 2 ^ 1074) in
    if ltb (2 ^ 1074) rest || (eqb (2 ^ 1074) rest && eqb (r % 2) 1) then r + 1 else r

abbrev zeros : ℕ → Str
zeros zero = []
zeros (suc n) = b'0' ∷ zeros n

unfoldable pub pad_left : ℕ → Str → Str
pad_left width s = zeros (width - length s) ++ s

-- The digits of a finite magnitude, at least one of them behind the point.
unfoldable pub digits_of : ℕ → Float64 → Str
unfolding scaled pad_left
digits_of digits x =
    let n = scaled digits x in
    itoa (n / 10 ^ digits) ++ (b'.' ∷ pad_left digits (itoa (n % 10 ^ digits)))

-- `%.nf`, and `%+.nf` if `plus`.
unfoldable pub format_float : Bool → ℕ → Float64 → Str
unfolding is_nan is_infinite is_negative digits_of
format_float plus digits x =
    if is_nan x
    then (if plus then bytes "+NaN" else bytes "NaN")
    else if is_negative x
    then (b'-' ∷ (if is_infinite x then bytes "Inf" else digits_of digits x))
    else if is_infinite x
    then bytes "+Inf"
    else if plus
    then b'+' ∷ digits_of digits x
    else digits_of digits x
