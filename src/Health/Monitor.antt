-- ===== src/Health/Monitor.antt =====
-- internal/health/monitor.go: the reports of the data nodes, as points of the windows.
pub mod Tables
pub mod Ingest
use sentinel_fs.Prelude.{
  ℕ, ◌^◌, List, [], ◌∷◌, Bool, Option, none, some, Str, bytes, Map, lookup, put, modify, leb, Int64,
  sub64, slt64, if◌then◌else◌,
}
use sentinel_fs.Float64.{Float64}
use sentinel_fs.Float64.Arith.{of_int64}
use sentinel_fs.Health.Metrics.{
  MetricType, disk_io_latency, disk_utilization, error_rate, response_time, cpu_usage, memory_usage,
  all_metric_types, SlidingWindow, NodeMetrics, MetricStore, new_metric_store, record_metric,
  get_or_create, get_metrics, get_window, latest, all_node_ids,
}

pub record HealthReport : Type 0 where
  pub node_id : Str
  pub disk_io_latency : Float64
  pub disk_util : Float64
  pub error_count : Int64
  pub response_time : Float64
  pub cpu_usage : Float64
  pub memory_usage : Float64
  pub timestamp : ℕ

pub record Monitor : Type 0 where
  pub store : MetricStore
  pub last_error_count : Map Int64

unfoldable pub new_monitor : Monitor
new_monitor = record { store = new_metric_store; last_error_count = [] }

-- The errors since the last report, 0 where the counter fell, or for the first report.
unfoldable pub error_delta : Option Int64 → Int64 → Int64
error_delta none count = 0
error_delta (some last) count = let delta = sub64 count last in if slt64 delta 0 then 0 else delta

-- The calls of `Record`, in order. They write through the pointer that `GetOrCreate` returned.
unfoldable pub record_report : HealthReport → Int64 → NodeMetrics → NodeMetrics
unfolding record_metric of_int64
record_report r delta nm =
    let ts = r.timestamp in
    record_metric error_rate (of_int64 delta) ts (
      record_metric memory_usage r.memory_usage ts (
        record_metric cpu_usage r.cpu_usage ts (
          record_metric response_time r.response_time ts (
            record_metric disk_utilization r.disk_util ts
              (record_metric disk_io_latency r.disk_io_latency ts nm)))))

unfoldable pub ingest_report : HealthReport → Monitor → Monitor
unfolding get_or_create record_report error_delta
ingest_report r m =
    let (_, store) = get_or_create r.node_id m.store in
    let delta = error_delta (lookup r.node_id m.last_error_count) r.error_count in
    record {
      store = record { nodes = modify r.node_id (record_report r delta) store.nodes };
      last_error_count = put r.node_id r.error_count m.last_error_count;
    }

unfoldable pub get_node_metrics : Str → Monitor → Option NodeMetrics
get_node_metrics node_id m = get_metrics node_id m.store

unfoldable pub get_all_node_ids : Monitor → List Str
get_all_node_ids m = all_node_ids m.store

-- The loop of `GetLatestSnapshot`.
unfoldable pub snapshot_of : List MetricType → NodeMetrics → Map Float64 → Map Float64
unfolding get_window latest
snapshot_of [] nm snapshot = snapshot
snapshot_of (mt ∷ mts) nm snapshot = elim (get_window mt (bytes "short") nm) [
  | none ↦ snapshot_of mts nm snapshot
  | some w ↦ snapshot_of mts nm (put mt (latest w) snapshot)
]

unfoldable pub get_latest_snapshot : Str → Monitor → Option (Map Float64)
unfolding snapshot_of
get_latest_snapshot node_id m = elim (get_node_metrics node_id m) [
  | none ↦ none
  | some nm ↦ some (snapshot_of all_metric_types nm [])
]
