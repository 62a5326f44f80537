-- ===== src/DataNode/Health.antt =====
-- internal/datanode/health.go: the health metrics of a data node. The random numbers, the times and
-- the memory statistics of the runtime are arguments. A call is one step under the lock.
use sentinel_fs.Prelude.{
  ℕ, ◌+◌, ◌*◌, ◌/◌, ◌%◌, ◌^◌, ◌≡◌, refl, inl, inr, Bool, true, false, Bool-cases, Str, Int64, add64,
  if◌then◌else◌, arith,
}
use sentinel_fs.Float64.{Float64, flt}
use sentinel_fs.Float64.Arith.{add, sub, mul, div, to_int64, round}
use sentinel_fs.Health.Regression.{one, seconds, time_sub}
use sentinel_fs.Health.Predictor.Risks.{InUnit}
use sentinel_fs.MetaServer.Monitoring.{HealthMetrics}

pub record HealthCollector : Type 0 where
  pub disk_io_latency : Float64
  pub disk_util : Float64
  pub error_count : Int64
  pub response_time : Float64
  pub cpu_usage : Float64
  pub memory_usage : Float64
  pub degrading : Bool
  pub degrade_speed : Float64
  pub degrade_started : ℕ

pub record Metrics : Type 0 where
  pub disk_io_latency : Float64
  pub disk_util : Float64
  pub error_count : Int64
  pub response_time : Float64
  pub cpu_usage : Float64
  pub memory_usage : Float64
  pub timestamp : ℕ

-- The five calls of rand.Float64, in order.
pub record Draws : Type 0 where
  pub disk_io_latency : Float64
  pub disk_util : Float64
  pub response_time : Float64
  pub cpu_usage : Float64
  pub memory_usage : Float64

-- 1 + 2r, 0.1 + 0.2r, 0.5 + r, 0.05 + 0.15r and 0.2 + 0.1r
unfoldable pub new_health_collector : Draws → HealthCollector
unfolding add mul
new_health_collector r = record {
  disk_io_latency = add one (mul r.disk_io_latency 0x4000000000000000);
  disk_util = add 0x3FB999999999999A (mul r.disk_util 0x3FC999999999999A);
  error_count = 0;
  response_time = add 0x3FE0000000000000 (mul r.response_time one);
  cpu_usage = add 0x3FA999999999999A (mul r.cpu_usage 0x3FC3333333333333);
  memory_usage = add 0x3FC999999999999A (mul r.memory_usage 0x3FB999999999999A);
  degrading = false;
  degrade_speed = 0;
  degrade_started = 0;
}

-- base + (r - 0.5) * amount, at least 0
unfoldable pub jitter : Float64 → Float64 → Float64 → Float64
unfolding add sub mul flt
jitter r base amount =
    let v = add base (mul (sub r 0x3FE0000000000000) amount) in if flt v 0 then 0 else v

unfoldable pub clamp : Float64 → Float64 → Float64 → Float64
unfolding flt
clamp v low high = if flt v low then low else if flt high v then high else v

-- if v > 0.99 { v = 0.99 }
unfoldable pub cap : Float64 → Float64
unfolding flt
cap v = if flt 0x3FEFAE147AE147AE v then 0x3FEFAE147AE147AE else v

-- The branch of `Collect` for a node that degrades: 0.8, 0.005, 0.5, 0.005 and 0.003 times the factor.
unfoldable pub degrade : ℕ → HealthCollector → HealthCollector
unfolding add mul cap to_int64 seconds time_sub
degrade now hc =
    let factor = mul (seconds (time_sub now hc.degrade_started)) hc.degrade_speed in
    record hc {
      disk_io_latency = add hc.disk_io_latency (mul factor 0x3FE999999999999A);
      disk_util = cap (add hc.disk_util (mul factor 0x3F747AE147AE147B));
      response_time = add hc.response_time (mul factor 0x3FE0000000000000);
      cpu_usage = cap (add hc.cpu_usage (mul factor 0x3F747AE147AE147B));
      memory_usage = cap (add hc.memory_usage (mul factor 0x3F689374BC6A7EFA));
      error_count = add64 hc.error_count (to_int64 (mul factor one));
    }

-- float64(x) of a uint64
unfoldable pub of_uint64 : ℕ → Float64
unfolding round
of_uint64 x = round (x * 2 ^ 1074) 1

-- float64(alloc) / float64(sys), at most 1
unfoldable pub real_memory_usage : ℕ → ℕ → Float64
unfolding div of_uint64 flt
real_memory_usage alloc sys =
    let usage = div (of_uint64 alloc) (of_uint64 sys) in if flt one usage then one else usage

-- The amounts are 1, 0.05, 0.5, 0.05 and 0.03. `now` is the time that the branch of the degrading
-- reads, `timestamp` that of the metrics.
unfoldable pub collect : Draws → ℕ → ℕ → ℕ → ℕ → HealthCollector → Metrics × HealthCollector
unfolding degrade jitter clamp add mul real_memory_usage
collect r now timestamp alloc sys hc =
    let hc' = if hc.degrading then degrade now hc else hc in
    (
      record {
        disk_io_latency = jitter r.disk_io_latency hc'.disk_io_latency one;
        disk_util = clamp (jitter r.disk_util hc'.disk_util 0x3FA999999999999A) 0 one;
        error_count = hc'.error_count;
        response_time = jitter r.response_time hc'.response_time 0x3FE0000000000000;
        cpu_usage = clamp (jitter r.cpu_usage hc'.cpu_usage 0x3FA999999999999A) 0 one;
        memory_usage =
            clamp
              (add (jitter r.memory_usage hc'.memory_usage 0x3F9EB851EB851EB8)
                (mul (real_memory_usage alloc sys) 0x3FB999999999999A))
              0 one;
        timestamp = timestamp;
      },
      hc',
    )

unfoldable pub start_degradation : Float64 → ℕ → HealthCollector → HealthCollector
start_degradation speed now hc = record hc {
  degrading = true;
  degrade_speed = speed;
  degrade_started = now;
}

unfoldable pub stop_degradation : HealthCollector → HealthCollector
stop_degradation hc = record hc { degrading = false }

unfoldable pub is_degrading : HealthCollector → Bool
is_degrading hc = hc.degrading

-- t.UnixMilli()
unfoldable pub to_unix_milli : ℕ → Int64
to_unix_milli t = (t / 1_000_000 + 2 ^ 63) % 2 ^ 64

-- The message of `sendHealthReport` and of `GetHealth` in server.go.
unfoldable pub health_metrics : Str → Metrics → HealthMetrics
unfolding to_unix_milli
health_metrics node_id m = record {
  node_id = node_id;
  disk_io_latency_ms = m.disk_io_latency;
  disk_utilization = m.disk_util;
  error_count = m.error_count;
  response_time_ms = m.response_time;
  cpu_usage = m.cpu_usage;
  memory_usage = m.memory_usage;
  timestamp = to_unix_milli m.timestamp;
}

clamp-InUnit : (v : Float64) → InUnit (clamp v 0 one)
unfolding InUnit clamp flt
clamp-InUnit v = ground arith

jitter_nonneg : (r base amount : Float64) → flt (jitter r base amount) 0 ≡ false
unfolding jitter flt
jitter_nonneg r base amount = elim (Bool-cases (flt v 0)) [
  | inl low ↦ rw low refl
  | inr fine ↦ rw fine fine
]
  where
    v : Float64
    v = add base (mul (sub r 0x3FE0000000000000) amount)

-- Whatever the state and the draws: the shares that a collection reports are between 0 and 1 and its
-- times are not below 0, unless they are NaN; its error count is that of the new state. A node that
-- does not degrade stays as it is, and one that stops degrading does not degrade.
pub collect-InUnit :
    (r : Draws) (now timestamp alloc sys : ℕ) (hc : HealthCollector)
    → let (m, hc') = collect r now timestamp alloc sys hc in
      InUnit m.disk_util
      × InUnit m.cpu_usage
      × InUnit m.memory_usage
      × (flt m.disk_io_latency 0 ≡ false)
      × (flt m.response_time 0 ≡ false)
      × (m.error_count ≡ hc'.error_count)
      × ((collect r now timestamp alloc sys (stop_degradation hc)).1 ≡ stop_degradation hc)
unfolding collect stop_degradation
collect-InUnit r now timestamp alloc sys hc = (
  clamp-InUnit (jitter r.disk_util hc'.disk_util 0x3FA999999999999A),
  clamp-InUnit (jitter r.cpu_usage hc'.cpu_usage 0x3FA999999999999A),
  clamp-InUnit (
      add (jitter r.memory_usage hc'.memory_usage 0x3F9EB851EB851EB8)
        (mul (real_memory_usage alloc sys) 0x3FB999999999999A)),
  jitter_nonneg r.disk_io_latency hc'.disk_io_latency one,
  jitter_nonneg r.response_time hc'.response_time 0x3FE0000000000000,
  refl,
  refl,
)
  where
    hc' : HealthCollector
    hc' = if hc.degrading then degrade now hc else hc
