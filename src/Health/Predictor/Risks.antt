-- ===== src/Health/Predictor/Risks.antt =====
-- What a prediction says, whatever the metrics are.
use mathlib.Core.Option.{some-injective}
use mathlib.Core.List.{append-nil, append_assoc}
use sentinel_fs.Prelude.{
  ℕ, ◌≤◌, ◌≡◌, refl, sym, ◌∙◌, ap, ◌⊎◌, inl, inr, List, [], ◌∷◌, ◌++◌, map, Bool, true, false,
  Bool-cases, Option-cases, Option, none, some, Str, bytes, ◌==◌, lookup, put, keys, mem,
  lookup-mem-true, length, ltb, if◌then◌else◌, arith,
}
use sentinel_fs.Config.{risk_to_status}
use sentinel_fs.Float64.{Float64, is_nan, rank, flt}
use sentinel_fs.Float64.Arith.{div}
use sentinel_fs.Health.Metrics.{
  MetricType, all_metric_types, SlidingWindow, NodeMetrics, get_window, get_metrics,
}
use sentinel_fs.Health.Monitor.{Monitor, get_node_metrics}
use sentinel_fs.Health.Prediction.{MetricRisk, PredictionResult}
use sentinel_fs.Health.Regression.{one, linear_regression_slope, clamp_risk}
use sentinel_fs.Health.Predictor.{
  metric_thresholds, at_key, trend_window, combined_risk, analyze_windows, analyze_metric,
  format_reason, Assessment, no_assessment, is_high, assess_metric, assess, overall_risk_of,
  predict_node,
}

-- Between 0 and 1, unless it is NaN.
unfoldable pub InUnit : Float64 → Type 0
InUnit v = (is_nan v ≡ true) ⊎ ((rank 0 ≤ rank v) × (rank v ≤ rank one))

clamp_risk-InUnit : (v : Float64) → InUnit (clamp_risk v)
unfolding InUnit clamp_risk flt
clamp_risk-InUnit v = ground arith

overall_risk_of-InUnit : (a : Assessment) → InUnit (overall_risk_of a)
unfolding overall_risk_of
overall_risk_of-InUnit a =
    clamp_risk-InUnit (if flt 0 a.total_weight then div a.weighted_risk_sum a.total_weight else 0)

-- The risk of a metric of the node.
abbrev pub risk_of : NodeMetrics → MetricType → MetricRisk
risk_of nm mt = analyze_metric nm mt (at_key metric_thresholds mt)

analyze_windows-InUnit :
    (short : SlidingWindow) (medium : Option SlidingWindow) (threshold : Float64)
    → InUnit (analyze_windows short medium threshold).risk_score
unfolding analyze_windows
analyze_windows-InUnit short medium threshold =
    clamp_risk-InUnit
      (combined_risk short (linear_regression_slope (trend_window short medium).0.points) threshold)

risk_score-InUnit :
    (nm : NodeMetrics) (mt : MetricType) (threshold : Float64)
    → InUnit (analyze_metric nm mt threshold).risk_score
unfolding analyze_metric analyze_windows
risk_score-InUnit nm mt threshold = elim (Option-cases (get_window mt (bytes "short") nm)) [
  | inl e ↦ rw (e, analyze_metric) (clamp_risk-InUnit 0)
  | inr (short, e) ↦ elim (Bool-cases (ltb (length short.points) 2)) [
    | inl few ↦ rw (e, analyze_metric, few) (clamp_risk-InUnit 0)
    | inr enough ↦
        rw (e, analyze_metric, enough)
          (analyze_windows-InUnit short (get_window mt (bytes "medium") nm) threshold)
  ]
]

-- The reasons, in the order of the metrics.
abbrev pub reasons_of : NodeMetrics → List MetricType → List Str
reasons_of nm [] = []
reasons_of nm (mt ∷ mts) =
    let rest = reasons_of nm mts in
    if is_high (risk_of nm mt) then format_reason mt (risk_of nm mt) ∷ rest else rest

append-if :
    (b : Bool) (xs ys : List Str) (x : Str)
    → (if b then xs ++ x ∷ [] else xs) ++ ys ≡ xs ++ (if b then x ∷ ys else ys)
append-if true xs ys x = append_assoc xs (x ∷ []) ys
append-if false xs ys x = refl

reasons-assess :
    (nm : NodeMetrics) (mts : List MetricType) (a : Assessment)
    → (assess nm mts a).reasons ≡ a.reasons ++ reasons_of nm mts
unfolding assess assess_metric
reasons-assess nm [] a = sym (append-nil a.reasons)
reasons-assess nm (mt ∷ mts) a =
    reasons-assess nm mts (assess_metric nm mt a)
    ∙ append-if (is_high (risk_of nm mt)) a.reasons (reasons_of nm mts)
        (format_reason mt (risk_of nm mt))

metric_risks-assess :
    (nm : NodeMetrics)
    → (assess nm all_metric_types no_assessment).metric_risks
      ≡ map (λ mt. (mt, risk_of nm mt)) all_metric_types
unfolding assess assess_metric put ◌==◌
metric_risks-assess nm = refl

-- The result of a node whose metrics are `nm`.
abbrev pub Describes : Str → ℕ → NodeMetrics → PredictionResult → Type 0
Describes id now nm r =
    (r.node_id ≡ id)
    × (r.predicted_at ≡ now)
    × InUnit r.overall_risk
    × (r.status ≡ risk_to_status r.overall_risk)
    × (r.metric_risks ≡ map (λ mt. (mt, risk_of nm mt)) all_metric_types)
    × ((mt : MetricType) (threshold : Float64) → InUnit (analyze_metric nm mt threshold).risk_score)
    × (r.reasons ≡ reasons_of nm all_metric_types)

prediction : Str → ℕ → NodeMetrics → PredictionResult
prediction id now nm =
    let a = assess nm all_metric_types no_assessment in
    record {
      node_id = id;
      overall_risk = overall_risk_of a;
      status = risk_to_status (overall_risk_of a);
      metric_risks = a.metric_risks;
      reasons = a.reasons;
      predicted_at = now;
    }

predict_node-some :
    (id : Str) (now : ℕ) (m : Monitor) (nm : NodeMetrics)
    → lookup id m.store.nodes ≡ some nm
    → (r : PredictionResult) × (predict_node id now m ≡ some r) × Describes id now nm r
unfolding prediction predict_node get_node_metrics get_metrics overall_risk_of
predict_node-some id now m nm h = (
  prediction id now nm,
  rw (predict_node, get_node_metrics, get_metrics, h) refl,
  (
    refl,
    refl,
    overall_risk_of-InUnit (assess nm all_metric_types no_assessment),
    refl,
    metric_risks-assess nm,
    risk_score-InUnit nm,
    reasons-assess nm all_metric_types no_assessment,
  ),
)

predict_node-none :
    (id : Str) (now : ℕ) (m : Monitor)
    → lookup id m.store.nodes ≡ none
    → predict_node id now m ≡ none
unfolding predict_node get_node_metrics get_metrics
predict_node-none id now m h = rw (predict_node, get_node_metrics, get_metrics, h) refl

pub node_id-predict_node :
    (id : Str) (now : ℕ) (m : Monitor) (r : PredictionResult)
    → predict_node id now m ≡ some r
    → r.node_id ≡ id
node_id-predict_node id now m r h = elim (Option-cases (lookup id m.store.nodes)) [
  | inl out ↦ absurd (cc (sym (predict_node-none id now m out) ∙ h))
  | inr (nm, found) ↦
      let (r', predicted, described) = predict_node-some id now m nm found in
      ap (λ x. x.node_id) (some-injective r r' (sym h ∙ predicted)) ∙ described.0
]

pub mem-keys-predict_node :
    (id : Str) (now : ℕ) (m : Monitor) (r : PredictionResult)
    → predict_node id now m ≡ some r
    → mem id (keys m.store.nodes) ≡ true
mem-keys-predict_node id now m r h = elim (Option-cases (lookup id m.store.nodes)) [
  | inl out ↦ absurd (cc (sym (predict_node-none id now m out) ∙ h))
  | inr (nm, found) ↦ lookup-mem-true id m.store.nodes found
]
