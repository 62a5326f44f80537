-- ===== src/MetaServer/Messages.antt =====
-- The state of internal/metaserver/server.go and the messages that its handlers read and write.
use sentinel_fs.Prelude.{
  ℕ, ◌+◌, ◌-◌, ◌%◌, ◌^◌, List, [], ◌++◌, map, Option, Str, bytes, ◌/◌, Int64, ltb, if◌then◌else◌,
}
use sentinel_fs.Float64.{Float64}
use sentinel_fs.Config.{second, status_string, default_replication_factor}
use sentinel_fs.ChunkManager.State.{
  DataNodeInfo, ChunkMeta, ChunkManager, ChunkError, new_chunk_manager,
}
use sentinel_fs.ChunkManager.Placement.{ChunkPlacementInfo}
use sentinel_fs.ChunkManager.Locations.{ChunkLocationInfo}
use sentinel_fs.Namespace.Tree.{FileMeta, DirEntry, file, dir, NsError}
use sentinel_fs.Namespace.Files.{Namespace, new_namespace}

pub record Server : Type 0 where
  pub namespace : Namespace
  pub chunk_mgr : ChunkManager

unfoldable pub new_server : Server
new_server = record { namespace = new_namespace; chunk_mgr = new_chunk_manager }

-- Why a response has `Success: false`. `nil_chunk` is the panic of a handler that finds no record of a
-- chunk that it has just located.
pub data Failure : Type 0 where
  chunk_failure : ChunkError → Failure
  namespace_failure : NsError → Failure
  nil_chunk : Str → Failure

pub record PutFileRequest : Type 0 where
  pub path : Str
  pub file_size : Int64
  pub chunk_count : ℕ
  pub checksum : Str

-- int(x) of the 32 bits of an int32, as the 64 bits of an int
unfoldable pub int_of_int32 : ℕ → Int64
int_of_int32 w = if ltb w (2 ^ 31) then w else w + (2 ^ 64 - 2 ^ 32)

-- A pb.ChunkPlacement, and also a pb.ChunkLocation: both have these fields.
pub record ChunkPlacement : Type 0 where
  pub chunk_id : Str
  pub chunk_index : ℕ
  pub node_addresses : List Str
  pub node_ids : List Str

unfoldable pub placement_of : ChunkPlacementInfo → ChunkPlacement
placement_of p = record {
  chunk_id = p.chunk_id;
  chunk_index = p.chunk_index % 2 ^ 32;
  node_addresses = p.node_addresses;
  node_ids = p.node_ids;
}

unfoldable pub new_file_meta : PutFileRequest → ℕ → List ChunkPlacementInfo → FileMeta
new_file_meta req created_at placements = record {
  path = req.path;
  size = req.file_size;
  chunk_count = int_of_int32 req.chunk_count;
  replication_factor = default_replication_factor;
  checksum = req.checksum;
  chunk_ids = map (λ p. p.chunk_id) placements;
  created_at = created_at;
}

-- pb.ChunkInfo
pub record ChunkInfo : Type 0 where
  pub chunk_id : Str
  pub chunk_index : ℕ
  pub size : Int64
  pub checksum : Str
  pub node_ids : List Str

unfoldable pub chunk_info : ChunkMeta → ChunkInfo
chunk_info c = record {
  chunk_id = c.chunk_id;
  chunk_index = c.chunk_index % 2 ^ 32;
  size = c.size;
  checksum = c.checksum;
  node_ids = c.node_ids;
}

unfoldable pub location_message : ChunkLocationInfo → ChunkPlacement
location_message l = record {
  chunk_id = l.chunk_id;
  chunk_index = l.chunk_index % 2 ^ 32;
  node_addresses = l.node_addresses;
  node_ids = l.node_ids;
}

-- pb.FileInfo; `created_at` is `Unix()` of the time, in seconds
pub record FileInfo : Type 0 where
  pub path : Str
  pub size : Int64
  pub chunk_count : ℕ
  pub replication_factor : ℕ
  pub chunks : List (Option ChunkInfo)
  pub created_at : ℕ

-- The fields that every response takes from the metadata of a file.
unfoldable pub file_info : FileMeta → List (Option ChunkInfo) → FileInfo
file_info f chunks = record {
  path = f.path;
  size = f.size;
  chunk_count = f.chunk_count % 2 ^ 32;
  replication_factor = f.replication_factor % 2 ^ 32;
  chunks = chunks;
  created_at = f.created_at / second;
}

-- The body of the loop of `ListFiles`.
unfoldable pub listed : Str → DirEntry → FileInfo
unfolding file_info
listed path (dir name es) = record {
  path = path ++ bytes "/" ++ name;
  size = 0;
  chunk_count = 0;
  replication_factor = 0;
  chunks = [];
  created_at = 0;
}
listed path (file name f) = file_info f []

-- pb.NodeInfo
pub record NodeInfo : Type 0 where
  pub node_id : Str
  pub address : Str
  pub capacity_bytes : Int64
  pub used_bytes : Int64
  pub chunk_count : ℕ
  pub status : Str
  pub risk_score : Float64

unfoldable pub node_info : DataNodeInfo → NodeInfo
node_info n = record {
  node_id = n.node_id;
  address = n.address;
  capacity_bytes = n.capacity_bytes;
  used_bytes = n.used_bytes;
  chunk_count = n.chunk_count;
  status = status_string n.status;
  risk_score = n.risk_score;
}

-- pb.GetClusterInfoResponse
pub record ClusterInfo : Type 0 where
  pub total_nodes : ℕ
  pub healthy_nodes : ℕ
  pub warning_nodes : ℕ
  pub at_risk_nodes : ℕ
  pub dead_nodes : ℕ
  pub total_capacity : Int64
  pub total_used : Int64
  pub total_files : ℕ
  pub total_chunks : ℕ
  pub nodes : List NodeInfo
