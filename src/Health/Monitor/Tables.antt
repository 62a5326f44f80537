-- ===== src/Health/Monitor/Tables.antt =====
-- The windows of a node as a table of the metrics: what a report writes to it, and what a snapshot
-- reads from it.
use sentinel_fs.Prelude.{ℕ, ◌≡◌, refl, [], ◌∷◌, Str, ◌==◌, Map, lookup, put, modify, Int64}
use sentinel_fs.Float64.{Float64}
use sentinel_fs.Float64.Arith.{of_int64}
use sentinel_fs.Health.Metrics.{
  disk_io_latency, disk_utilization, error_rate, response_time, cpu_usage, memory_usage,
  all_metric_types, MetricWindows, NodeMetrics, add_windows, get_window, choose_window,
  new_metric_windows, new_node_metrics, record_metric, add_to_windows, latest,
}
use sentinel_fs.Health.Metrics.Window.{latest-add_point}
use sentinel_fs.Health.Monitor.{HealthReport, record_report, snapshot_of}

-- Something for each metric.
pub record PerMetric (A : Type 0) : Type 0 where
  pub io : A
  pub util : A
  pub errors : A
  pub response : A
  pub cpu : A
  pub memory : A

abbrev pub table : {A : Type 0} → PerMetric A → Map A
table a =
    (disk_io_latency, a.io)
    ∷ (disk_utilization, a.util)
    ∷ (error_rate, a.errors)
    ∷ (response_time, a.response)
    ∷ (cpu_usage, a.cpu)
    ∷ (memory_usage, a.memory)
    ∷ []

abbrev pub reported : HealthReport → Int64 → PerMetric Float64
reported r delta = record {
  io = r.disk_io_latency;
  util = r.disk_util;
  errors = of_int64 delta;
  response = r.response_time;
  cpu = r.cpu_usage;
  memory = r.memory_usage;
}

abbrev pub add_all : ℕ → PerMetric Float64 → PerMetric MetricWindows → PerMetric MetricWindows
add_all ts v w = record {
  io = add_to_windows v.io ts w.io;
  util = add_to_windows v.util ts w.util;
  errors = add_to_windows v.errors ts w.errors;
  response = add_to_windows v.response ts w.response;
  cpu = add_to_windows v.cpu ts w.cpu;
  memory = add_to_windows v.memory ts w.memory;
}

abbrev pub latest_all : PerMetric MetricWindows → PerMetric Float64
latest_all w = record {
  io = latest w.io.short;
  util = latest w.util.short;
  errors = latest w.errors.short;
  response = latest w.response.short;
  cpu = latest w.cpu.short;
  memory = latest w.memory.short;
}

-- There are windows for every metric.
abbrev pub Whole : NodeMetrics → Type 0
Whole nm = (w : PerMetric MetricWindows) × (nm.windows ≡ table w)

pub new_node_metrics-Whole : (id : Str) → Whole (new_node_metrics id)
unfolding new_node_metrics add_windows put ◌==◌
new_node_metrics-Whole id = (
  record {
    io = new_metric_windows;
    util = new_metric_windows;
    errors = new_metric_windows;
    response = new_metric_windows;
    cpu = new_metric_windows;
    memory = new_metric_windows;
  },
  refl,
)

module _ (f : MetricWindows → MetricWindows) (w : PerMetric MetricWindows) where
  modify_io : modify disk_io_latency f (table w) ≡ table (record w { io = f w.io })
  unfolding modify ◌==◌
  modify_io = refl

  modify_util : modify disk_utilization f (table w) ≡ table (record w { util = f w.util })
  unfolding modify ◌==◌
  modify_util = refl

  modify_errors : modify error_rate f (table w) ≡ table (record w { errors = f w.errors })
  unfolding modify ◌==◌
  modify_errors = refl

  modify_response : modify response_time f (table w) ≡ table (record w { response = f w.response })
  unfolding modify ◌==◌
  modify_response = refl

  modify_cpu : modify cpu_usage f (table w) ≡ table (record w { cpu = f w.cpu })
  unfolding modify ◌==◌
  modify_cpu = refl

  modify_memory : modify memory_usage f (table w) ≡ table (record w { memory = f w.memory })
  unfolding modify ◌==◌
  modify_memory = refl

pub record_report-table :
    (r : HealthReport) (delta : Int64) (nm : NodeMetrics) (w : PerMetric MetricWindows)
    → nm.windows ≡ table w
    → (record_report r delta nm).windows ≡ table (add_all r.timestamp (reported r delta) w)
unfolding record_report record_metric
record_report-table r delta nm w h =
    rw
      (
        h,
        modify_io (add r.disk_io_latency) w,
        modify_util (add r.disk_util) w1,
        modify_response (add r.response_time) w2,
        modify_cpu (add r.cpu_usage) w3,
        modify_memory (add r.memory_usage) w4,
        modify_errors (add (of_int64 delta)) w5,
      )
      refl
  where
    add : Float64 → MetricWindows → MetricWindows
    add v = add_to_windows v r.timestamp

    w1 : PerMetric MetricWindows
    w1 = record w { io = add r.disk_io_latency w.io }

    w2 : PerMetric MetricWindows
    w2 = record w1 { util = add r.disk_util w.util }

    w3 : PerMetric MetricWindows
    w3 = record w2 { response = add r.response_time w.response }

    w4 : PerMetric MetricWindows
    w4 = record w3 { cpu = add r.cpu_usage w.cpu }

    w5 : PerMetric MetricWindows
    w5 = record w4 { memory = add r.memory_usage w.memory }

pub latest_all-add_all :
    (ts : ℕ) (v : PerMetric Float64) (w : PerMetric MetricWindows)
    → table (latest_all (add_all ts v w)) ≡ table v
unfolding add_to_windows
latest_all-add_all ts v w =
    rw
      (
        latest-add_point v.io ts w.io.short,
        latest-add_point v.util ts w.util.short,
        latest-add_point v.errors ts w.errors.short,
        latest-add_point v.response ts w.response.short,
        latest-add_point v.cpu ts w.cpu.short,
        latest-add_point v.memory ts w.memory.short,
      )
      refl

pub snapshot_of-table :
    (nm : NodeMetrics) (w : PerMetric MetricWindows)
    → nm.windows ≡ table w
    → snapshot_of all_metric_types nm [] ≡ table (latest_all w)
unfolding snapshot_of get_window choose_window lookup put ◌==◌
snapshot_of-table nm w h = rw h refl
