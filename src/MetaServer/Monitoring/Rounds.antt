-- ===== src/MetaServer/Monitoring/Rounds.antt =====
-- What a round of the prediction loop does to the registry.
use sentinel_fs.Prelude.{List, [], ◌∷◌, Str, ◌==◌, if◌then◌else◌}
use sentinel_fs.ChunkManager.State.{DataNodeInfo, ChunkManager}
use sentinel_fs.Health.Prediction.{PredictionResult}
use sentinel_fs.Health.Monitor.{Monitor}
use sentinel_fs.MetaServer.Monitoring.{is_critical}

-- The node, graded.
abbrev pub graded : PredictionResult → DataNodeInfo → DataNodeInfo
graded r n = record n { status = r.status; risk_score = r.overall_risk }

-- The node after all results for it.
abbrev graded_by : List PredictionResult → Str → DataNodeInfo → DataNodeInfo
graded_by [] id n = n
graded_by (r ∷ rs) id n = graded_by rs id (if r.node_id == id then graded r n else n)

-- The results for which a migration starts.
abbrev pub critical_of : List PredictionResult → List PredictionResult
critical_of [] = []
critical_of (r ∷ rs) = let rest = critical_of rs in if is_critical r.status then r ∷ rest else rest
