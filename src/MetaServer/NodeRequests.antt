-- ===== src/MetaServer/NodeRequests.antt =====
-- The handlers of server.go for nodes: `RegisterNode`, `Heartbeat`, `GetClusterInfo`, `GetNodeInfo`.
use sentinel_fs.Prelude.{
  ℕ, ◌%◌, ◌^◌, List, [], ◌∷◌, map, Bool, true, false, none, some, Str, ◌==◌, length, Int64, not,
  if◌then◌else◌, ok, err,
}
use sentinel_fs.ChunkManager.Nodes
use sentinel_fs.ChunkManager.Nodes.{update_heartbeat, get_node, get_all_nodes}
use sentinel_fs.ChunkManager.Stats.{get_cluster_stats}
use sentinel_fs.Namespace.Files.{get_all_files}
use sentinel_fs.MetaServer.Messages.{ClusterInfo, NodeInfo, Server, node_info}

unfoldable pub register_node : Str → Int64 → ℕ → Server → Str × Server
register_node address capacity now s =
    let (node_id, cm) = Nodes.register_node address capacity now s.chunk_mgr in
    (node_id, record s { chunk_mgr = cm })

-- Whether the response is a success.
unfoldable pub heartbeat : Str → Int64 → ℕ → ℕ → Server → Bool × Server
heartbeat node_id used_bytes chunk_count now s =
    let (r, cm) = update_heartbeat node_id used_bytes chunk_count now s.chunk_mgr in
    (elim r [ err e ↦ false | ok _ ↦ true ], record s { chunk_mgr = cm })

unfoldable pub get_node_info : Str → Server → List NodeInfo
unfolding node_info
get_node_info node_id s =
    if not (node_id == [])
    then (elim (get_node s.chunk_mgr node_id) [ none ↦ [] | some n ↦ node_info n ∷ [] ])
    else map node_info (get_all_nodes s.chunk_mgr)

unfoldable pub get_cluster_info : Server → ClusterInfo
unfolding node_info
get_cluster_info s =
    let stats = get_cluster_stats s.chunk_mgr in
    record {
      total_nodes = stats.total_nodes % 2 ^ 32;
      healthy_nodes = stats.healthy_nodes % 2 ^ 32;
      warning_nodes = stats.warning_nodes % 2 ^ 32;
      at_risk_nodes = stats.at_risk_nodes % 2 ^ 32;
      dead_nodes = stats.dead_nodes % 2 ^ 32;
      total_capacity = stats.total_cap;
      total_used = stats.total_used;
      total_files = length (get_all_files s.namespace) % 2 ^ 32;
      total_chunks = stats.total_chunks % 2 ^ 32;
      nodes = map node_info (get_all_nodes s.chunk_mgr);
    }
