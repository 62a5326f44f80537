-- ===== src/Health/Prediction.antt =====
-- The results of internal/health/predictor.go.
use sentinel_fs.Prelude.{ℕ, List, Map, Str}
use sentinel_fs.Float64.{Float64}
use sentinel_fs.Config.{NodeStatus}

-- `window` names the window that was used.
pub record MetricRisk : Type 0 where
  pub current_value : Float64
  pub mean_value : Float64
  pub trend_slope : Float64
  pub risk_score : Float64
  pub window : Str

pub record PredictionResult : Type 0 where
  pub node_id : Str
  pub overall_risk : Float64
  pub status : NodeStatus
  pub metric_risks : Map MetricRisk
  pub reasons : List Str
  pub predicted_at : ℕ
