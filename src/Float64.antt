-- ===== src/Float64.antt =====
-- Go's float64 as its 64 bits (IEEE 754 binary64), with its comparisons. NaN compares false with
-- everything, and the two zeros are equal.
pub mod Arith
pub mod Format
use sentinel_fs.Prelude.{
  ℕ, ◌+◌, ◌-◌, ◌%◌, ◌^◌, ◌≤◌, ◌≡◌, Bool, true, false, ◌&&◌, ltb, leb, eqb, not, if◌then◌else◌,
  arith,
}

abbrev pub Float64 : Type 0
Float64 = ℕ

-- The bits without the sign.
abbrev pub magnitude : Float64 → ℕ
magnitude x = x % 2 ^ 63

unfoldable pub is_nan : Float64 → Bool
is_nan x = ltb 0x7FF0000000000000 (magnitude x)

-- Numbers that are not NaN stand in the order of these.
pub rank : Float64 → ℕ
rank x = if leb (2 ^ 63) x then 2 ^ 63 - magnitude x else 2 ^ 63 + magnitude x

-- x < y
unfoldable pub flt : Float64 → Float64 → Bool
unfolding is_nan rank
flt x y = not (is_nan x) && not (is_nan y) && ltb (rank x) (rank y)

-- x == y
unfoldable pub feq : Float64 → Float64 → Bool
unfolding is_nan rank
feq x y = not (is_nan x) && not (is_nan y) && eqb (rank x) (rank y)

-- x <= y
unfoldable pub fle : Float64 → Float64 → Bool
unfolding is_nan rank
fle x y = not (is_nan x) && not (is_nan y) && leb (rank x) (rank y)

module _ (x y : Float64) where
  pub flt→rank : flt x y ≡ true → rank x + 1 ≤ rank y
  unfolding flt
  flt→rank h = ground arith

pub flt_irrefl : (x : Float64) → flt x x ≡ false
unfolding flt
flt_irrefl x = ground arith
