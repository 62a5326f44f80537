-- ===== src/Float64/Arith.antt =====
-- The arithmetic of float64 that the Go code uses, by IEEE 754 with rounding to nearest even. A finite
-- magnitude is a whole number of units of 2 ^ -1074, the least positive float64. Where the result is
-- NaN, which NaN it is stays open in Go; here it is one of them.
use sentinel_fs.Prelude.{
  ℕ, zero, suc, ◌+◌, ◌-◌, ◌*◌, ◌/◌, ◌%◌, ◌^◌, Bool, true, false, ◌&&◌, ◌||◌, ltb, leb, eqb, not,
  if◌then◌else◌, Int64,
}
use sentinel_fs.Float64.{Float64, magnitude, is_nan}

abbrev pub nan : Float64
nan = 0x7FF8000000000001

abbrev pub infinity : Float64
infinity = 0x7FF0000000000000

unfoldable pub is_infinite : Float64 → Bool
is_infinite x = eqb (magnitude x) infinity

unfoldable pub is_negative : Float64 → Bool
is_negative x = leb (2 ^ 63) x

unfoldable pub with_sign : Bool → ℕ → Float64
with_sign negative m = if negative then 2 ^ 63 + m else m

-- The magnitude of a finite number in units.
unfoldable pub units : Float64 → ℕ
units x =
    let e = magnitude x / 2 ^ 52 in
    if eqb e 0 then magnitude x else (2 ^ 52 + x % 2 ^ 52) * 2 ^ (e - 1)

-- Of the numbers from `t` to `t + 2 ^ k - 1`, the last one, if any past `t`, at which
-- 2 ^ (52 + t) is at most `n`.
unfoldable pub climb : ℕ → ℕ → ℕ → ℕ
climb zero n t = t
climb (suc k) n t = climb k n (if leb (2 ^ (52 + t + 2 ^ k)) n then t + 2 ^ k else t)

-- The nearest float64 to p / q units, to the even one of two, as a magnitude; `t` is how many bits
-- are rounded away.
unfoldable pub round : ℕ → ℕ → ℕ
unfolding climb
round p q =
    let t = climb 12 (p / q) 0 in
    let step = q * 2 ^ t in
    let r = p / step in
    let rest = 2 * (p % step) in
    let up = ltb step rest || (eqb step rest && eqb (r % 2) 1) in
    let m = (if up then r + 1 else r) + t * 2 ^ 52 in if leb infinity m then infinity else m

abbrev differ : Bool → Bool → Bool
differ true b = not b
differ false b = b

unfoldable pub neg : Float64 → Float64
neg x = if leb (2 ^ 63) x then x - 2 ^ 63 else x + 2 ^ 63

unfoldable pub abs : Float64 → Float64
abs x = magnitude x

-- The sum of two finite numbers.
unfoldable pub add_finite : Float64 → Float64 → Float64
unfolding is_negative with_sign units round
add_finite x y =
    if not (differ (is_negative x) (is_negative y))
    then with_sign (is_negative x) (round (units x + units y) 1)
    else if eqb (units x) (units y)
    then 0
    else if ltb (units y) (units x)
    then with_sign (is_negative x) (round (units x - units y) 1)
    else with_sign (is_negative y) (round (units y - units x) 1)

-- x + y
unfoldable pub add : Float64 → Float64 → Float64
unfolding is_nan is_infinite is_negative add_finite
add x y =
    if is_nan x || is_nan y
    then nan
    else if is_infinite x
    then (if is_infinite y && differ (is_negative x) (is_negative y) then nan else x)
    else if is_infinite y
    then y
    else add_finite x y

-- x - y
unfoldable pub sub : Float64 → Float64 → Float64
unfolding is_nan add neg
sub x y = if is_nan y then nan else add x (neg y)

-- x * y
unfoldable pub mul : Float64 → Float64 → Float64
unfolding is_nan is_infinite is_negative with_sign units round
mul x y =
    let negative = differ (is_negative x) (is_negative y) in
    if is_nan x || is_nan y
    then nan
    else if is_infinite x || is_infinite y
    then (if eqb (magnitude x) 0 || eqb (magnitude y) 0 then nan else with_sign negative infinity)
    else with_sign negative (round (units x * units y) (2 ^ 1074))

-- x / y
unfoldable pub div : Float64 → Float64 → Float64
unfolding is_nan is_infinite is_negative with_sign units round
div x y =
    let negative = differ (is_negative x) (is_negative y) in
    if is_nan x || is_nan y
    then nan
    else if is_infinite x
    then (if is_infinite y then nan else with_sign negative infinity)
    else if is_infinite y
    then with_sign negative 0
    else if eqb (magnitude y) 0
    then (if eqb (magnitude x) 0 then nan else with_sign negative infinity)
    else with_sign negative (round (units x * 2 ^ 1074) (units y))

-- The whole square root of a number below 4 ^ fuel.
unfoldable pub isqrt : ℕ → ℕ → ℕ
isqrt zero n = 0
isqrt (suc fuel) n =
    let r = 2 * isqrt fuel (n / 4) in if leb ((r + 1) * (r + 1)) n then r + 1 else r

-- math.Sqrt: the root is computed to 2 ^ -60 units, and one more bit says whether that is exact.
unfoldable pub sqrt : Float64 → Float64
unfolding is_nan is_infinite is_negative units round isqrt
sqrt x =
    if is_nan x
    then nan
    else if eqb (magnitude x) 0
    then x
    else if is_negative x
    then nan
    else if is_infinite x
    then x
    else (let n = units x * 2 ^ 1074 * 4 ^ 60 in
        let r = isqrt 1700 n in round (2 * r + (if eqb (r * r) n then 0 else 1)) (2 ^ 61))

-- float64(i)
unfoldable pub of_int64 : Int64 → Float64
unfolding with_sign round
of_int64 i =
    if ltb i (2 ^ 63)
    then round (i * 2 ^ 1074) 1
    else with_sign true (round ((2 ^ 64 - i) * 2 ^ 1074) 1)

-- int64(x), on amd64 where x is out of range.
unfoldable pub to_int64 : Float64 → Int64
unfolding is_nan is_infinite is_negative units
to_int64 x =
    let whole = units x / 2 ^ 1074 in
    if is_nan x || is_infinite x || leb (2 ^ 63) whole
    then 2 ^ 63
    else if is_negative x
    then (2 ^ 64 - whole) % 2 ^ 64
    else whole
