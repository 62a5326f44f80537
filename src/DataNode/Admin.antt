-- ===== src/DataNode/Admin.antt =====
-- internal/datanode/admin.go: the HTTP handlers that start and stop a simulated degradation of the
-- node. The parser of floating-point numbers, none where it fails, is an argument. A response has the
-- values that the handler encodes.
use sentinel_fs.Prelude.{
  [], Bool, false, Option, none, some, Str, bytes, ◌==◌, ◌++◌, Int64, ℕ, if◌then◌else◌, Result, ok,
  err,
}
use sentinel_fs.Float64.{Float64}
use sentinel_fs.Float64.Arith.{mul}
use sentinel_fs.Float64.Format.{format_float}
use sentinel_fs.DataNode.Health.{
  HealthCollector, Draws, collect, start_degradation, stop_degradation, is_degrading,
}

-- The calls of `http.Error`.
pub data HttpError : Type 0 where
  post_only invalid_speed : HttpError

pub record DegradeResponse : Type 0 where
  pub status : Str
  pub node_id : Str
  pub speed : Float64
  pub message : Str

pub record RecoverResponse : Type 0 where
  pub status : Str
  pub node_id : Str
  pub message : Str

pub record StatusResponse : Type 0 where
  pub node_id : Str
  pub degrading : Bool
  pub disk_io_latency : Str
  pub disk_utilization : Str
  pub error_count : Int64
  pub response_time : Str
  pub cpu_usage : Str
  pub memory_usage : Str

-- The speed, which is 0.1 if the query has none.
unfoldable pub speed_of : (Str → Option Float64) → Str → Option Float64
speed_of parse_float speed_str =
    if speed_str == [] then some 0x3FB999999999999A else parse_float speed_str

-- On a request's method and its speed parameter, at this time.
unfoldable pub handle_degrade :
    (Str → Option Float64)
    → Str
    → Str
    → Str
    → ℕ
    → HealthCollector
    → Result HttpError DegradeResponse × HealthCollector
unfolding speed_of start_degradation
handle_degrade parse_float node_id method speed_str now hc =
    if method == bytes "POST"
    then (elim (speed_of parse_float speed_str) [
      | none ↦ (err invalid_speed, hc)
      | some speed ↦ (
        ok (record {
          status = bytes "degrading";
          node_id = node_id;
          speed = speed;
          message = bytes "Disk degradation simulation started";
        }),
        start_degradation speed now hc,
      )
    ])
    else (err post_only, hc)

unfoldable pub handle_recover :
    Str → Str → HealthCollector → Result HttpError RecoverResponse × HealthCollector
unfolding stop_degradation
handle_recover node_id method hc =
    if method == bytes "POST"
    then (
      ok (record {
        status = bytes "recovered";
        node_id = node_id;
        message = bytes "Degradation simulation stopped";
      }),
      stop_degradation hc,
    )
    else (err post_only, hc)

-- %.2f ms
unfoldable pub in_ms : Float64 → Str
unfolding format_float
in_ms x = format_float false 2 x ++ bytes " ms"

-- %.1f%% of a share
unfoldable pub in_percent : Float64 → Str
unfolding format_float mul
in_percent x = format_float false 1 (mul x 0x4059000000000000) ++ bytes "%"

-- It collects the metrics, which moves a degradation on.
unfoldable pub handle_status :
    Str → Draws → ℕ → ℕ → ℕ → ℕ → HealthCollector → StatusResponse × HealthCollector
unfolding collect is_degrading in_ms in_percent
handle_status node_id r now timestamp alloc sys hc =
    let (m, hc') = collect r now timestamp alloc sys hc in
    (
      record {
        node_id = node_id;
        degrading = is_degrading hc';
        disk_io_latency = in_ms m.disk_io_latency;
        disk_utilization = in_percent m.disk_util;
        error_count = m.error_count;
        response_time = in_ms m.response_time;
        cpu_usage = in_percent m.cpu_usage;
        memory_usage = in_percent m.memory_usage;
      },
      hc',
    )
