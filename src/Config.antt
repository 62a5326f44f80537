-- ===== src/Config.antt =====
-- internal/common/config.go: the constants, the node statuses and the status of a risk score.
-- Durations count nanoseconds.
pub mod Risk
use sentinel_fs.Prelude.{ℕ, ◌*◌, if◌then◌else◌, Str, bytes}
use sentinel_fs.Float64.{Float64, flt}

abbrev pub second : ℕ
second = 1_000_000_000

abbrev pub minute : ℕ
minute = 60 * second

abbrev pub chunk_size : ℕ
chunk_size = 4 * 1024 * 1024

abbrev pub default_replication_factor : ℕ
default_replication_factor = 3

abbrev pub dead_node_timeout : ℕ
dead_node_timeout = 15 * second

-- 0.25, 0.45 and 0.55.
abbrev pub risk_healthy : Float64
risk_healthy = 0x3FD0000000000000

abbrev pub risk_warning : Float64
risk_warning = 0x3FDCCCCCCCCCCCCD

abbrev pub risk_at_risk : Float64
risk_at_risk = 0x3FE199999999999A

pub data NodeStatus : Type 0 where
  healthy warning at_risk critical dead : NodeStatus

unfoldable pub risk_to_status : Float64 → NodeStatus
risk_to_status risk =
    if flt risk risk_healthy
    then healthy
    else if flt risk risk_warning
    then warning
    else if flt risk risk_at_risk
    then at_risk
    else critical

-- The text of a status, as the responses carry it.
unfoldable pub status_string : NodeStatus → Str
status_string healthy = bytes "HEALTHY"
status_string warning = bytes "WARNING"
status_string at_risk = bytes "AT_RISK"
status_string critical = bytes "CRITICAL"
status_string dead = bytes "DEAD"
