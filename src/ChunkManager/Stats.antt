-- ===== src/ChunkManager/Stats.antt =====
-- `GetClusterStats` of chunk_manager.go. Each node counts once, under its status, and the counters
-- are counts of map entries; the byte totals are int64 sums, which wrap around.
pub mod Partition
use sentinel_fs.Prelude.{ℕ, ◌+◌, ◌≡◌, refl, List, [], ◌∷◌, values, length, Int64, add64, arith}
use sentinel_fs.Config.{NodeStatus, healthy, warning, at_risk, critical, dead}
use sentinel_fs.ChunkManager.State.{DataNodeInfo, ChunkManager}

pub record ClusterStats : Type 0 where
  pub total_nodes : ℕ
  pub healthy_nodes : ℕ
  pub warning_nodes : ℕ
  pub at_risk_nodes : ℕ
  pub dead_nodes : ℕ
  pub total_cap : Int64
  pub total_used : Int64
  pub total_chunks : ℕ

-- The switch on the status.
unfoldable pub count_status : NodeStatus → ClusterStats → ClusterStats
count_status healthy s = record s { healthy_nodes = s.healthy_nodes + 1 }
count_status warning s = record s { warning_nodes = s.warning_nodes + 1 }
count_status at_risk s = record s { at_risk_nodes = s.at_risk_nodes + 1 }
count_status critical s = record s { at_risk_nodes = s.at_risk_nodes + 1 }
count_status dead s = record s { dead_nodes = s.dead_nodes + 1 }

unfoldable pub count_node : DataNodeInfo → ClusterStats → ClusterStats
unfolding count_status
count_node n s = count_status n.status (record s {
  total_nodes = s.total_nodes + 1;
  total_cap = add64 s.total_cap n.capacity_bytes;
  total_used = add64 s.total_used n.used_bytes;
})

unfoldable pub count_nodes : List DataNodeInfo → ClusterStats → ClusterStats
unfolding count_node
count_nodes [] s = s
count_nodes (n ∷ ns) s = count_nodes ns (count_node n s)

unfoldable pub get_cluster_stats : ChunkManager → ClusterStats
unfolding count_nodes
get_cluster_stats cm = count_nodes (values cm.nodes) (record {
  total_nodes = 0;
  healthy_nodes = 0;
  warning_nodes = 0;
  at_risk_nodes = 0;
  dead_nodes = 0;
  total_cap = 0;
  total_used = 0;
  total_chunks = length cm.chunks;
})
