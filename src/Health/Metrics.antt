-- ===== src/Health/Metrics.antt =====
-- internal/health/metrics.go: sliding windows of metric values. A time is its nanoseconds since a
-- moment before all others. A method of a window, of the metrics of a node or of the store is one step
-- under the lock of its object.
pub mod Window
use sentinel_fs.Prelude.{
  ℕ, ◌+◌, ◌*◌, List, [], ◌∷◌, ◌++◌, map, Bool, true, false, Option, none, some, Str, bytes, ◌==◌,
  Map, lookup, put, modify, keys, length, ltb, if◌then◌else◌,
}
use sentinel_fs.Config.{minute}
use sentinel_fs.Float64.{Float64}
use sentinel_fs.Float64.Arith.{add, div, of_int64}

-- A metric is its name.
abbrev pub MetricType : Type 0
MetricType = Str

abbrev pub disk_io_latency : MetricType
disk_io_latency = bytes "disk_io_latency"

abbrev pub disk_utilization : MetricType
disk_utilization = bytes "disk_utilization"

abbrev pub error_rate : MetricType
error_rate = bytes "error_rate"

abbrev pub response_time : MetricType
response_time = bytes "response_time"

abbrev pub cpu_usage : MetricType
cpu_usage = bytes "cpu_usage"

abbrev pub memory_usage : MetricType
memory_usage = bytes "memory_usage"

abbrev pub all_metric_types : List MetricType
all_metric_types =
    disk_io_latency ∷ disk_utilization ∷ error_rate ∷ response_time ∷ cpu_usage ∷ memory_usage ∷ []

pub record MetricPoint : Type 0 where
  pub value : Float64
  pub timestamp : ℕ

pub record SlidingWindow : Type 0 where
  pub points : List MetricPoint
  pub duration : ℕ

unfoldable pub new_sliding_window : ℕ → SlidingWindow
new_sliding_window duration = record { points = []; duration = duration }

-- p.Timestamp.Before(now.Add(-duration))
unfoldable pub expired : ℕ → ℕ → MetricPoint → Bool
expired duration now p = ltb (p.timestamp + duration) now

-- The loop of `evict`: the points from the first one on that is not expired.
unfoldable pub drop_expired : ℕ → ℕ → List MetricPoint → List MetricPoint
unfolding expired
drop_expired duration now [] = []
drop_expired duration now (p ∷ ps) =
    if expired duration now p then drop_expired duration now ps else p ∷ ps

unfoldable pub evict : ℕ → SlidingWindow → SlidingWindow
unfolding drop_expired
evict now sw = record sw { points = drop_expired sw.duration now sw.points }

-- `Add`
unfoldable pub add_point : Float64 → ℕ → SlidingWindow → SlidingWindow
unfolding evict
add_point value ts sw =
    evict ts (record sw { points = sw.points ++ record { value = value; timestamp = ts } ∷ [] })

unfoldable pub values_of : SlidingWindow → List Float64
values_of sw = map (λ p. p.value) sw.points

-- The value of the last point, or of `found` where there is none.
unfoldable pub last_value : Float64 → List MetricPoint → Float64
last_value found [] = found
last_value found (p ∷ ps) = last_value p.value ps

unfoldable pub latest : SlidingWindow → Float64
unfolding last_value
latest sw = last_value 0 sw.points

-- sum += v for each
unfoldable pub sum_from : Float64 → List Float64 → Float64
unfolding add
sum_from sum [] = sum
sum_from sum (v ∷ vs) = sum_from (add sum v) vs

unfoldable pub mean_of : List Float64 → Float64
unfolding sum_from div of_int64
mean_of vs = div (sum_from 0 vs) (of_int64 (length vs))

unfoldable pub mean : SlidingWindow → Float64
unfolding mean_of values_of
mean sw = elim sw.points [ [] ↦ 0 | p ∷ ps ↦ mean_of (values_of sw) ]

pub record MetricWindows : Type 0 where
  pub short : SlidingWindow
  pub medium : SlidingWindow
  pub long : SlidingWindow

pub record NodeMetrics : Type 0 where
  pub node_id : Str
  pub windows : Map MetricWindows

unfoldable pub new_metric_windows : MetricWindows
unfolding new_sliding_window
new_metric_windows = record {
  short = new_sliding_window (5 * minute);
  medium = new_sliding_window (15 * minute);
  long = new_sliding_window (60 * minute);
}

-- The loop of `NewNodeMetrics`.
unfoldable pub add_windows : List MetricType → Map MetricWindows → Map MetricWindows
unfolding new_metric_windows
add_windows [] ws = ws
add_windows (mt ∷ mts) ws = add_windows mts (put mt new_metric_windows ws)

unfoldable pub new_node_metrics : Str → NodeMetrics
unfolding add_windows
new_node_metrics node_id = record { node_id = node_id; windows = add_windows all_metric_types [] }

unfoldable pub add_to_windows : Float64 → ℕ → MetricWindows → MetricWindows
unfolding add_point
add_to_windows value ts w = record {
  short = add_point value ts w.short;
  medium = add_point value ts w.medium;
  long = add_point value ts w.long;
}

-- `Record`: a metric that has no windows is passed over.
unfoldable pub record_metric : MetricType → Float64 → ℕ → NodeMetrics → NodeMetrics
unfolding add_to_windows
record_metric metric_type value ts nm = record nm {
  windows = modify metric_type (add_to_windows value ts) nm.windows;
}

unfoldable pub choose_window : Str → MetricWindows → SlidingWindow
choose_window window w =
    if window == bytes "short"
    then w.short
    else if window == bytes "medium"
    then w.medium
    else if window == bytes "long"
    then w.long
    else w.short

unfoldable pub get_window : MetricType → Str → NodeMetrics → Option SlidingWindow
unfolding choose_window
get_window metric_type window nm = elim (lookup metric_type nm.windows) [
  | none ↦ none
  | some w ↦ some (choose_window window w)
]

pub record MetricStore : Type 0 where
  pub nodes : Map NodeMetrics

unfoldable pub new_metric_store : MetricStore
new_metric_store = record { nodes = [] }

-- The store after `GetOrCreate`, in which the node has metrics.
unfoldable pub get_or_create : Str → MetricStore → NodeMetrics × MetricStore
unfolding new_node_metrics
get_or_create node_id ms = elim (lookup node_id ms.nodes) [
  | some nm ↦ (nm, ms)
  | none ↦
      (new_node_metrics node_id, record { nodes = put node_id (new_node_metrics node_id) ms.nodes })
]

unfoldable pub get_metrics : Str → MetricStore → Option NodeMetrics
get_metrics node_id ms = lookup node_id ms.nodes

unfoldable pub all_node_ids : MetricStore → List Str
all_node_ids ms = keys ms.nodes
