-- ===== src/Health/Predictor.antt =====
-- internal/health/predictor.go: the risk of a node from its windows. A prediction reads the metrics of
-- one moment. `nm.GetWindow` finds windows for every metric that has weight; only a node's metrics of
-- another origin could lack some.
pub mod Risks
use sentinel_fs.Prelude.{
  ℕ, List, [], ◌∷◌, ◌++◌, Bool, true, false, Option, none, some, Str, bytes, ◌==◌, Map, lookup, put,
  ltb, leb, not, length, if◌then◌else◌,
}
use sentinel_fs.Config.{risk_to_status}
use sentinel_fs.Float64.{Float64, flt, fle}
use sentinel_fs.Float64.Arith.{add, mul, div}
use sentinel_fs.Float64.Format.{format_float}
use sentinel_fs.Health.Metrics.{
  MetricType, disk_io_latency, disk_utilization, error_rate, response_time, cpu_usage, memory_usage,
  all_metric_types, SlidingWindow, NodeMetrics, get_window, latest, mean, values_of,
}
use sentinel_fs.Health.Monitor.{Monitor, get_node_metrics, get_all_node_ids}
use sentinel_fs.Health.Prediction.{MetricRisk, PredictionResult}
use sentinel_fs.Health.Regression.{one, linear_regression_slope, compute_volatility, clamp_risk}

-- 0.25, 0.2, 0.25, 0.15, 0.05 and 0.1
abbrev pub metric_weights : Map Float64
metric_weights =
    (disk_io_latency, 0x3FD0000000000000)
    ∷ (disk_utilization, 0x3FC999999999999A)
    ∷ (error_rate, 0x3FD0000000000000)
    ∷ (response_time, 0x3FC3333333333333)
    ∷ (cpu_usage, 0x3FA999999999999A)
    ∷ (memory_usage, 0x3FB999999999999A)
    ∷ []

-- 50, 0.9, 5, 30, 0.9 and 0.9
abbrev pub metric_thresholds : Map Float64
metric_thresholds =
    (disk_io_latency, 0x4049000000000000)
    ∷ (disk_utilization, 0x3FECCCCCCCCCCCCD)
    ∷ (error_rate, 0x4014000000000000)
    ∷ (response_time, 0x403E000000000000)
    ∷ (cpu_usage, 0x3FECCCCCCCCCCCCD)
    ∷ (memory_usage, 0x3FECCCCCCCCCCCCD)
    ∷ []

-- A read of a map, 0 for a key that is missing.
abbrev pub at_key : Map Float64 → Str → Float64
at_key m k = elim (lookup k m) [ none ↦ 0 | some v ↦ v ]

-- &MetricRisk{}
abbrev pub no_risk : MetricRisk
no_risk = record { current_value = 0; mean_value = 0; trend_slope = 0; risk_score = 0; window = [] }

-- if v > 1.0 { v = 1.0 }
unfoldable pub at_most_one : Float64 → Float64
unfolding flt
at_most_one v = if flt one v then one else v

-- 0.4*value + 0.4*trend + 0.2*volatility, and where the value is above 0.7
-- 0.6*value + 0.25*trend + 0.15*volatility.
unfoldable pub combine : Float64 → Float64 → Float64 → Float64
unfolding flt add mul
combine value_risk trend_risk vol_risk =
    if flt 0x3FE6666666666666 value_risk
    then add (add (mul 0x3FE3333333333333 value_risk) (mul 0x3FD0000000000000 trend_risk))
        (mul 0x3FC3333333333333 vol_risk)
    else add (add (mul 0x3FD999999999999A value_risk) (mul 0x3FD999999999999A trend_risk))
        (mul 0x3FC999999999999A vol_risk)

-- The slope, times 60 seconds, against the threshold.
unfoldable pub trend_risk : Float64 → Float64 → Float64
unfolding flt mul div at_most_one
trend_risk slope threshold =
    if flt 0 slope then at_most_one (div (mul slope 0x404E000000000000) threshold) else 0

-- The window of the trend, with its name.
unfoldable pub trend_window : SlidingWindow → Option SlidingWindow → SlidingWindow × Str
trend_window short none = (short, bytes "short")
trend_window short (some medium) =
    if leb 3 (length medium.points) then (medium, bytes "medium") else (short, bytes "short")

-- `combined` in `analyzeMetric`.
unfoldable pub combined_risk : SlidingWindow → Float64 → Float64 → Float64
unfolding latest values_of div mul at_most_one trend_risk combine compute_volatility
combined_risk short slope threshold =
    let value_risk = at_most_one (div (latest short) threshold) in
    let vol_risk =
      at_most_one (div (compute_volatility (values_of short)) (mul threshold 0x3FE0000000000000)) in
    combine value_risk (trend_risk slope threshold) vol_risk

-- The part of `analyzeMetric` after its early return.
unfoldable pub analyze_windows : SlidingWindow → Option SlidingWindow → Float64 → MetricRisk
unfolding latest mean trend_window linear_regression_slope combined_risk clamp_risk
analyze_windows short medium threshold =
    let (trend_win, window) = trend_window short medium in
    let slope = linear_regression_slope trend_win.points in
    record {
      current_value = latest short;
      mean_value = mean short;
      trend_slope = slope;
      risk_score = clamp_risk (combined_risk short slope threshold);
      window = window;
    }

unfoldable pub analyze_metric : NodeMetrics → MetricType → Float64 → MetricRisk
unfolding get_window analyze_windows
analyze_metric nm metric_type threshold = elim (get_window metric_type (bytes "short") nm) [
  | none ↦ no_risk
  | some short ↦
      if ltb (length short.points) 2
      then no_risk
      else analyze_windows short (get_window metric_type (bytes "medium") nm) threshold
]

abbrev trend_text : ℕ → MetricRisk → Str
trend_text digits risk =
    bytes " (trend: " ++ format_float true digits risk.trend_slope ++ bytes "/s)"

-- `%.1f%%` of the value times 100.
abbrev percent : MetricRisk → Str
percent risk = format_float false 1 (mul risk.current_value 0x4059000000000000) ++ bytes "%"

unfoldable pub format_reason : MetricType → MetricRisk → Str
unfolding format_float mul
format_reason mt risk =
    if mt == disk_io_latency
    then bytes "Disk I/O latency elevated: "
      ++ format_float false 1 risk.current_value
      ++ bytes "ms"
      ++ trend_text 2 risk
    else if mt == disk_utilization
    then bytes "Disk utilization high: " ++ percent risk ++ trend_text 4 risk
    else if mt == error_rate
    then bytes "Error rate increasing: "
      ++ format_float false 1 risk.current_value
      ++ bytes " errors/interval"
      ++ trend_text 2 risk
    else if mt == response_time
    then bytes "Response time degraded: "
      ++ format_float false 1 risk.current_value
      ++ bytes "ms"
      ++ trend_text 2 risk
    else if mt == cpu_usage
    then bytes "CPU usage high: " ++ percent risk ++ trend_text 4 risk
    else if mt == memory_usage
    then bytes "Memory usage high: " ++ percent risk ++ trend_text 4 risk
    else mt ++ bytes " risk: " ++ format_float false 2 risk.risk_score

-- The variables of the loop of `PredictNode`.
pub record Assessment : Type 0 where
  pub metric_risks : Map MetricRisk
  pub weighted_risk_sum : Float64
  pub total_weight : Float64
  pub reasons : List Str

abbrev pub no_assessment : Assessment
no_assessment = record { metric_risks = []; weighted_risk_sum = 0; total_weight = 0; reasons = [] }

-- risk.RiskScore >= 0.6
unfoldable pub is_high : MetricRisk → Bool
unfolding fle
is_high risk = fle 0x3FE3333333333333 risk.risk_score

unfoldable pub assess_metric : NodeMetrics → MetricType → Assessment → Assessment
unfolding analyze_metric add mul is_high format_reason
assess_metric nm mt a =
    let weight = at_key metric_weights mt in
    let risk = analyze_metric nm mt (at_key metric_thresholds mt) in
    record {
      metric_risks = put mt risk a.metric_risks;
      weighted_risk_sum = add a.weighted_risk_sum (mul risk.risk_score weight);
      total_weight = add a.total_weight weight;
      reasons = if is_high risk then a.reasons ++ format_reason mt risk ∷ [] else a.reasons;
    }

-- The loop of `PredictNode`.
unfoldable pub assess : NodeMetrics → List MetricType → Assessment → Assessment
unfolding assess_metric
assess nm [] a = a
assess nm (mt ∷ mts) a = assess nm mts (assess_metric nm mt a)

unfoldable pub overall_risk_of : Assessment → Float64
unfolding flt div clamp_risk
overall_risk_of a =
    clamp_risk (if flt 0 a.total_weight then div a.weighted_risk_sum a.total_weight else 0)

unfoldable pub predict_node : Str → ℕ → Monitor → Option PredictionResult
unfolding get_node_metrics assess overall_risk_of risk_to_status
predict_node node_id now m = elim (get_node_metrics node_id m) [
  | none ↦ none
  | some nm ↦
      let a = assess nm all_metric_types no_assessment in
      some (record {
        node_id = node_id;
        overall_risk = overall_risk_of a;
        status = risk_to_status (overall_risk_of a);
        metric_risks = a.metric_risks;
        reasons = a.reasons;
        predicted_at = now;
      })
]

-- The loop of `PredictAll`: a node without metrics gives nothing. `clock` is the time of each call of
-- `PredictNode`.
unfoldable pub predict_nodes : List Str → (Str → ℕ) → Monitor → List PredictionResult
unfolding predict_node
predict_nodes [] clock m = []
predict_nodes (n ∷ ns) clock m =
    let rest = predict_nodes ns clock m in
    elim (predict_node n (clock n) m) [ none ↦ rest | some r ↦ r ∷ rest ]

unfoldable pub predict_all : (Str → ℕ) → Monitor → List PredictionResult
unfolding predict_nodes get_all_node_ids
predict_all clock m = predict_nodes (get_all_node_ids m) clock m
