-- ===== src/ChunkManager/Stats/Partition.antt =====
-- The counters of the cluster statistics.
use sentinel_fs.Prelude.{
  ℕ, ◌+◌, ◌%◌, ◌^◌, ◌≡◌, List, [], ◌∷◌, Bool, true, false, if◌then◌else◌, values, length, add64,
  arith,
}
use sentinel_fs.Config.{NodeStatus, healthy, warning, at_risk, critical, dead}
use sentinel_fs.ChunkManager.State.{DataNodeInfo, ChunkManager}
use sentinel_fs.ChunkManager.Stats.{ClusterStats, count_nodes, count_node, get_cluster_stats}

abbrev pub is_healthy : NodeStatus → Bool
is_healthy healthy = true
is_healthy _ = false

abbrev pub is_warning : NodeStatus → Bool
is_warning warning = true
is_warning _ = false

abbrev pub is_endangered : NodeStatus → Bool
is_endangered at_risk = true
is_endangered critical = true
is_endangered _ = false

abbrev pub is_dead : NodeStatus → Bool
is_dead dead = true
is_dead _ = false

-- How many nodes have a status that passes the test.
abbrev pub count_if : (NodeStatus → Bool) → List DataNodeInfo → ℕ
count_if p [] = 0
count_if p (n ∷ ns) = (if p n.status then 1 else 0) + count_if p ns

abbrev pub sum_of : (DataNodeInfo → ℕ) → List DataNodeInfo → ℕ
sum_of f [] = 0
sum_of f (n ∷ ns) = f n + sum_of f ns

record Counts (ns : List DataNodeInfo) (s t : ClusterStats) : Type 0 where
  total : t.total_nodes ≡ s.total_nodes + length ns
  healthy : t.healthy_nodes ≡ s.healthy_nodes + count_if is_healthy ns
  warning : t.warning_nodes ≡ s.warning_nodes + count_if is_warning ns
  endangered : t.at_risk_nodes ≡ s.at_risk_nodes + count_if is_endangered ns
  dead : t.dead_nodes ≡ s.dead_nodes + count_if is_dead ns
  cap : t.total_cap % 2 ^ 64 ≡ (s.total_cap + sum_of (λ n. n.capacity_bytes) ns) % 2 ^ 64
  used : t.total_used % 2 ^ 64 ≡ (s.total_used + sum_of (λ n. n.used_bytes) ns) % 2 ^ 64
  chunks : t.total_chunks ≡ s.total_chunks

count_nodes-Counts : (ns : List DataNodeInfo) (s : ClusterStats) → Counts ns s (count_nodes ns s)
unfolding count_nodes add64
count_nodes-Counts [] s = omega arith
count_nodes-Counts (n ∷ ns) s = ground (arith, count_nodes-Counts ns (count_node n s))

no_nodes : ChunkManager → ClusterStats
no_nodes cm = record {
  total_nodes = 0;
  healthy_nodes = 0;
  warning_nodes = 0;
  at_risk_nodes = 0;
  dead_nodes = 0;
  total_cap = 0;
  total_used = 0;
  total_chunks = length cm.chunks;
}

count_if-total :
    (ns : List DataNodeInfo)
    → count_if is_healthy ns
        + count_if is_warning ns
        + count_if is_endangered ns
        + count_if is_dead ns
      ≡ length ns
count_if-total [] = omega arith
count_if-total (n ∷ ns) = ground (arith, count_if-total ns)

-- The statistics count every node once: the totals are the numbers of nodes and of chunk records, the
-- four counters are the numbers of healthy, of warned, of at-risk or critical, and of dead nodes, they
-- add up to the number of nodes, and the byte totals are the sums modulo 2 ^ 64.
pub get_cluster_stats-counts :
    (cm : ChunkManager)
    → let s = get_cluster_stats cm in
      let ns = values cm.nodes in
      (s.total_nodes ≡ length ns)
      × (s.healthy_nodes ≡ count_if is_healthy ns)
      × (s.warning_nodes ≡ count_if is_warning ns)
      × (s.at_risk_nodes ≡ count_if is_endangered ns)
      × (s.dead_nodes ≡ count_if is_dead ns)
      × (s.healthy_nodes + s.warning_nodes + s.at_risk_nodes + s.dead_nodes ≡ s.total_nodes)
      × (s.total_chunks ≡ length cm.chunks)
      × (s.total_cap % 2 ^ 64 ≡ sum_of (λ n. n.capacity_bytes) ns % 2 ^ 64)
      × (s.total_used % 2 ^ 64 ≡ sum_of (λ n. n.used_bytes) ns % 2 ^ 64)
unfolding get_cluster_stats no_nodes
get_cluster_stats-counts cm =
    let c = count_nodes-Counts (values cm.nodes) (no_nodes cm) in
    let t = count_if-total (values cm.nodes) in omega (arith, c, t)
