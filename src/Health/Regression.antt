-- ===== src/Health/Regression.antt =====
-- internal/health/predictor.go, the formulas: the slope of a least-squares fit, the standard
-- deviation, and the clamp of a risk; `time.Time.Sub` and `time.Duration.Seconds`, which the slope uses.
-- A product and a sum round one by one, as on amd64.
use sentinel_fs.Prelude.{
  ℕ, ◌-◌, ◌/◌, ◌%◌, ◌^◌, List, [], ◌∷◌, min, ltb, leb, length, if◌then◌else◌, Int64,
}
use sentinel_fs.Config.{second}
use sentinel_fs.Float64.{Float64, flt}
use sentinel_fs.Float64.Arith.{add, sub, mul, div, sqrt, abs, of_int64}
use sentinel_fs.Health.Metrics.{MetricPoint, mean_of}

abbrev pub one : Float64
one = 0x3FF0000000000000

-- 1e-10
abbrev least_denominator : Float64
least_denominator = 0x3DDB7CDFD9D7BDBB

-- 1e9
abbrev second_float : Float64
second_float = 0x41CDCD6500000000

-- t.Sub(u), which saturates.
unfoldable pub time_sub : ℕ → ℕ → Int64
time_sub t u =
    if leb u t
    then min (t - u) (2 ^ 63 - 1)
    else if leb (2 ^ 63) (u - t)
    then 2 ^ 63
    else 2 ^ 64 - (u - t)

-- d.Seconds(): the whole seconds and the rest have the sign of `d`.
unfoldable pub seconds : Int64 → Float64
unfolding add div of_int64
seconds d =
    if ltb d (2 ^ 63)
    then add (of_int64 (d / second)) (div (of_int64 (d % second)) second_float)
    else (let m = 2 ^ 64 - d in
        add (of_int64 ((2 ^ 64 - m / second) % 2 ^ 64))
          (div (of_int64 ((2 ^ 64 - m % second) % 2 ^ 64)) second_float))

pub record Sums : Type 0 where
  pub x : Float64
  pub y : Float64
  pub xy : Float64
  pub x2 : Float64

-- The loop of `linearRegressionSlope`.
unfoldable pub sum_points : ℕ → List MetricPoint → Sums → Sums
unfolding add mul seconds time_sub
sum_points base [] s = s
sum_points base (p ∷ ps) s =
    let x = seconds (time_sub p.timestamp base) in
    sum_points base ps (record {
      x = add s.x x;
      y = add s.y p.value;
      xy = add s.xy (mul x p.value);
      x2 = add s.x2 (mul x x);
    })

unfoldable pub linear_regression_slope : List MetricPoint → Float64
unfolding sum_points add sub mul div abs of_int64 flt
linear_regression_slope [] = 0
linear_regression_slope (p ∷ ps) =
    let n = length (p ∷ ps) in
    let fn = of_int64 n in
    let s = sum_points p.timestamp (p ∷ ps) (record { x = 0; y = 0; xy = 0; x2 = 0 }) in
    let denominator = sub (mul fn s.x2) (mul s.x s.x) in
    if ltb n 2
    then 0
    else if flt (abs denominator) least_denominator
    then 0
    else div (sub (mul fn s.xy) (mul s.x s.y)) denominator

-- The second loop of `computeVolatility`.
unfoldable pub variance_from : Float64 → Float64 → List Float64 → Float64
unfolding add sub mul
variance_from mean variance [] = variance
variance_from mean variance (v ∷ vs) =
    let diff = sub v mean in variance_from mean (add variance (mul diff diff)) vs

unfoldable pub compute_volatility : List Float64 → Float64
unfolding mean_of variance_from div of_int64 sqrt
compute_volatility values =
    let n = length values in
    let variance = variance_from (mean_of values) 0 values in
    if ltb n 2 then 0 else sqrt (div variance (of_int64 (n - 1)))

unfoldable pub clamp_risk : Float64 → Float64
unfolding flt
clamp_risk v = if flt v 0 then 0 else if flt one v then one else v
