-- ===== src/ChunkManager/State.antt =====
-- The state of internal/metaserver/chunk_manager.go. A `*DataNodeInfo` is the key under which the
-- node stands in `nodes`; times are nanoseconds on the monotonic clock.
use sentinel_fs.Prelude.{ℕ, List, [], Str, Map, Int64}
use sentinel_fs.Float64.{Float64}
use sentinel_fs.Config.{NodeStatus}

pub record DataNodeInfo : Type 0 where
  pub node_id : Str
  pub address : Str
  pub capacity_bytes : Int64
  pub used_bytes : Int64
  pub chunk_count : ℕ
  pub status : NodeStatus
  pub risk_score : Float64
  pub last_heartbeat : ℕ
  pub chunks : List Str

pub record ChunkMeta : Type 0 where
  pub chunk_id : Str
  pub chunk_index : ℕ
  pub size : Int64
  pub checksum : Str
  pub node_ids : List Str
  pub file_path : Str

pub record ChunkManager : Type 0 where
  pub nodes : Map DataNodeInfo
  pub chunks : Map ChunkMeta

-- The errors of the chunk manager; `length_out_of_range` is the panic of `make`.
pub data ChunkError : Type 0 where
  unknown_node chunk_not_found no_live_nodes : Str → ChunkError
  no_healthy_nodes length_out_of_range : ChunkError

unfoldable pub new_chunk_manager : ChunkManager
new_chunk_manager = record { nodes = []; chunks = [] }
