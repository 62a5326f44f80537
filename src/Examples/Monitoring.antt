-- ===== src/Examples/Monitoring.antt =====
-- The theorems on the health subsystem, on a cluster of which one node reports.
use sentinel_fs.Prelude.{ℕ, ◌*◌, ◌≡◌, List, [], ◌∷◌, false, Str, bytes, Int64}
use sentinel_fs.Config.{minute}
use sentinel_fs.Float64.{Float64, flt}
use sentinel_fs.Health.Metrics.{MetricPoint}
use sentinel_fs.Health.Monitor.{HealthReport, Monitor, new_monitor}
use sentinel_fs.Health.Monitor.Ingest.{ingest_all}
use sentinel_fs.Health.Predictor.Risks.{InUnit}
use sentinel_fs.Health.Migrator.{new_migrator}
use sentinel_fs.MetaServer.Messages.{new_server}
use sentinel_fs.MetaServer.Monitoring.{MonitoredServer}
use sentinel_fs.DataNode.Health.{
  Draws, HealthCollector, new_health_collector, start_degradation, stop_degradation, collect,
  collect-InUnit,
}
use sentinel_fs.Examples.Cluster.{cluster}

-- 1.0 and 2.0, six minutes apart.
abbrev points : List MetricPoint
points =
    record { value = 0x3FF0000000000000; timestamp = 0 }
    ∷ record { value = 0x4000000000000000; timestamp = 6 * minute }
    ∷ []

abbrev report_at : ℕ → Int64 → HealthReport
report_at ts errors = record {
  node_id = bytes "node-1";
  disk_io_latency = 0x4049000000000000;
  disk_util = 0x3FE0000000000000;
  error_count = errors;
  response_time = 0x4010000000000000;
  cpu_usage = 0x3FE0000000000000;
  memory_usage = 0x3FE0000000000000;
  timestamp = ts;
}

abbrev reports : List HealthReport
reports = report_at 1_000_000_000 3 ∷ report_at 4_000_000_000 5 ∷ []

abbrev monitor : Monitor
monitor = ingest_all reports new_monitor

abbrev clock : Str → ℕ
clock id = 8_000_000_000

abbrev watched : MonitoredServer
watched = record {
  server = record new_server { chunk_mgr = cluster };
  monitor = monitor;
  migrator = new_migrator;
}

-- 0.5 each
abbrev draws : Draws
draws = record {
  disk_io_latency = 0x3FE0000000000000;
  disk_util = 0x3FE0000000000000;
  response_time = 0x3FE0000000000000;
  cpu_usage = 0x3FE0000000000000;
  memory_usage = 0x3FE0000000000000;
}

abbrev degrading : HealthCollector
degrading = start_degradation 0x4000000000000000 1_000_000_000 (new_health_collector draws)

collect-InUnit_example :
    let (m, hc') = collect draws 5_000_000_000 5_000_000_001 100 200 degrading in
    InUnit m.disk_util
    × InUnit m.cpu_usage
    × InUnit m.memory_usage
    × (flt m.disk_io_latency 0 ≡ false)
    × (flt m.response_time 0 ≡ false)
    × (m.error_count ≡ hc'.error_count)
    × ((collect draws 5_000_000_000 5_000_000_001 100 200 (stop_degradation degrading)).1
        ≡ stop_degradation degrading)
collect-InUnit_example = collect-InUnit draws 5_000_000_000 5_000_000_001 100 200 degrading
