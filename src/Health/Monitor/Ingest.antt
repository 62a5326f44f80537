-- ===== src/Health/Monitor/Ingest.antt =====
-- The monitor over any list of reports: what the latest snapshots show.
use sentinel_fs.Prelude.{
  ◌≡◌, List, [], ◌∷◌, Option, none, some, Str, ◌==◌, Map, lookup, Int64, if◌then◌else◌,
}
use sentinel_fs.Float64.{Float64}
use sentinel_fs.Health.Metrics.{all_metric_types, NodeMetrics, get_or_create}
use sentinel_fs.Health.Monitor.{HealthReport, Monitor, error_delta, ingest_report, snapshot_of}
use sentinel_fs.Health.Monitor.Tables.{table, reported, Whole}

-- The reports, taken in one by one.
abbrev pub ingest_all : List HealthReport → Monitor → Monitor
ingest_all [] m = m
ingest_all (r ∷ rs) m = ingest_all rs (ingest_report r m)

-- The error count of the node's last report, or `found` where it made none.
abbrev pub last_count : Str → Option Int64 → List HealthReport → Option Int64
last_count id found [] = found
last_count id found (r ∷ rs) =
    last_count id (if r.node_id == id then some r.error_count else found) rs

-- What the snapshot after a report is to show.
abbrev pub expected : HealthReport → List HealthReport → Map Float64
expected r rs = table (reported r (error_delta (last_count r.node_id none rs) r.error_count))

-- Each node of the store has windows for every metric.
abbrev AllWhole : Monitor → Type 0
AllWhole m = (id : Str) (nm : NodeMetrics) → lookup id m.store.nodes ≡ some nm → Whole nm

-- The metrics that a report of the node writes to.
abbrev of_node : Str → Monitor → NodeMetrics
of_node id m = (get_or_create id m.store).0

-- The snapshot of what a lookup of the node gave.
abbrev snapshot_from : Option NodeMetrics → Option (Map Float64)
snapshot_from none = none
snapshot_from (some nm) = some (snapshot_of all_metric_types nm [])
