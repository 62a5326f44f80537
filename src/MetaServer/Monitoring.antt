-- ===== src/MetaServer/Monitoring.antt =====
-- The health side of internal/metaserver/server.go: `ReportHealth` and the rounds of `predictionLoop`
-- and `deadNodeChecker`. The server is that of `Messages` with the fields of its health subsystem.
pub mod Rounds
use sentinel_fs.Prelude.{
  ℕ, ◌+◌, ◌*◌, ◌%◌, ◌^◌, List, [], ◌∷◌, Bool, true, false, Option, none, some, Str, bytes, Int64,
  if◌then◌else◌,
}
use sentinel_fs.Float64.{Float64}
use sentinel_fs.Config.{NodeStatus, critical, status_string}
use sentinel_fs.ChunkManager.State.{ChunkManager}
use sentinel_fs.ChunkManager.Nodes.{get_node, update_node_health, check_dead_nodes}
use sentinel_fs.Health.Prediction.{PredictionResult}
use sentinel_fs.Health.Monitor.{HealthReport, Monitor, new_monitor, ingest_report}
use sentinel_fs.Health.Predictor.{predict_all}
use sentinel_fs.Health.Migrator.{Migrator, new_migrator}
use sentinel_fs.MetaServer.Messages.{Server, new_server}

pub record MonitoredServer : Type 0 where
  pub server : Server
  pub monitor : Monitor
  pub migrator : Migrator

-- `NewServer`
unfoldable pub new_monitored_server : MonitoredServer
new_monitored_server = record {
  server = new_server;
  monitor = new_monitor;
  migrator = new_migrator;
}

-- pb.HealthMetrics; `timestamp` counts milliseconds since 1970.
pub record HealthMetrics : Type 0 where
  pub node_id : Str
  pub disk_io_latency_ms : Float64
  pub disk_utilization : Float64
  pub error_count : Int64
  pub response_time_ms : Float64
  pub cpu_usage : Float64
  pub memory_usage : Float64
  pub timestamp : Int64

-- time.UnixMilli: the times of the reports count from 2 ^ 63 milliseconds before 1970.
unfoldable pub unix_milli : Int64 → ℕ
unix_milli ms = (ms + 2 ^ 63) % 2 ^ 64 * 1_000_000

unfoldable pub health_report : HealthMetrics → HealthReport
unfolding unix_milli
health_report m = record {
  node_id = m.node_id;
  disk_io_latency = m.disk_io_latency_ms;
  disk_util = m.disk_utilization;
  error_count = m.error_count;
  response_time = m.response_time_ms;
  cpu_usage = m.cpu_usage;
  memory_usage = m.memory_usage;
  timestamp = unix_milli m.timestamp;
}

-- pb.ReportHealthResponse
pub record ReportHealthResponse : Type 0 where
  pub success : Bool
  pub status : Str

unfoldable pub report_health :
    Option HealthMetrics → MonitoredServer → ReportHealthResponse × MonitoredServer
unfolding health_report ingest_report get_node status_string
report_health none s = (record { success = false; status = bytes "no metrics" }, s)
report_health (some m) s =
    let s' = record s { monitor = ingest_report (health_report m) s.monitor } in
    (
      elim (get_node s'.server.chunk_mgr m.node_id) [
        | none ↦ record { success = false; status = bytes "unknown node" }
        | some node ↦ record { success = true; status = status_string node.status }
      ],
      s',
    )

abbrev pub is_critical : NodeStatus → Bool
is_critical critical = true
is_critical _ = false

-- The loop over the results of a round: those for which it starts a `MigrateNode`, in order, and the
-- chunk manager.
unfoldable pub apply_results :
    List PredictionResult → ChunkManager → List PredictionResult × ChunkManager
unfolding update_node_health
apply_results [] cm = ([], cm)
apply_results (r ∷ rs) cm =
    let (started, cm') =
      apply_results rs (update_node_health r.node_id r.status r.overall_risk cm) in
    (if is_critical r.status then r ∷ started else started, cm')

-- A round of `predictionLoop`, between whose calls no other call comes.
unfoldable pub prediction_round :
    (Str → ℕ) → MonitoredServer → List PredictionResult × MonitoredServer
unfolding predict_all apply_results
prediction_round clock s =
    let (started, cm) = apply_results (predict_all clock s.monitor) s.server.chunk_mgr in
    (started, record s { server = record s.server { chunk_mgr = cm } })

-- A round of `deadNodeChecker`, with the nodes that it logs.
unfoldable pub dead_node_round : ℕ → MonitoredServer → List Str × MonitoredServer
unfolding check_dead_nodes
dead_node_round now s =
    let (ids, cm) = check_dead_nodes now s.server.chunk_mgr in
    (ids, record s { server = record s.server { chunk_mgr = cm } })
