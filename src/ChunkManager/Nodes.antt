-- ===== src/ChunkManager/Nodes.antt =====
-- The node registry of chunk_manager.go: registration, heartbeats, health and dead nodes.
use sentinel_fs.Prelude.{
  ℕ, ◌+◌, ◌-◌, List, [], ◌∷◌, ◌++◌, Bool, true, false, ◌&&◌, Option, none, some, Str, bytes, itoa,
  Map, lookup, put, modify, length, Int64, ltb, not, if◌then◌else◌, ◌==◌, Result, ok, err, values,
}
use sentinel_fs.Float64.{Float64}
use sentinel_fs.Config.{NodeStatus, healthy, warning, dead, dead_node_timeout}
use sentinel_fs.ChunkManager.State.{DataNodeInfo, ChunkManager, ChunkError, unknown_node}

-- The entry that `for _, n := range cm.nodes { if n.Address == address` meets first.
unfoldable pub find_address : Str → Map DataNodeInfo → Option (Str × DataNodeInfo)
find_address address [] = none
find_address address ((k, n) ∷ rest) =
    if n.address == address then some (k, n) else find_address address rest

-- fmt.Sprintf("node-%d", n)
unfoldable pub node_name : ℕ → Str
node_name n = bytes "node-" ++ itoa n

unfoldable pub fresh_node : Str → Str → Int64 → ℕ → DataNodeInfo
fresh_node node_id address capacity now = record {
  node_id = node_id;
  address = address;
  capacity_bytes = capacity;
  used_bytes = 0;
  chunk_count = 0;
  status = healthy;
  risk_score = 0;
  last_heartbeat = now;
  chunks = [];
}

-- It always returns a nil error.
unfoldable pub register_node : Str → Int64 → ℕ → ChunkManager → Str × ChunkManager
unfolding fresh_node node_name
register_node address capacity now cm = elim (find_address address cm.nodes) [
  | some (k, n) ↦
      (n.node_id, record cm { nodes = modify k (λ m. record m { last_heartbeat = now }) cm.nodes })
  | none ↦
      let node_id = node_name (length cm.nodes + 1) in
      (
        node_id,
        record cm { nodes = put node_id (fresh_node node_id address capacity now) cm.nodes },
      )
]

abbrev pub is_dead : NodeStatus → Bool
is_dead dead = true
is_dead _ = false

-- The node after a heartbeat: a dead node is revived.
unfoldable pub beat : Int64 → ℕ → ℕ → DataNodeInfo → DataNodeInfo
beat used_bytes chunk_count now n =
    let seen : DataNodeInfo = record n {
      last_heartbeat = now;
      used_bytes = used_bytes;
      chunk_count = chunk_count;
    } in
    if is_dead n.status then record seen { status = healthy; risk_score = 0 } else seen

unfoldable pub update_heartbeat :
    Str → Int64 → ℕ → ℕ → ChunkManager → Result ChunkError (Unit {0}) × ChunkManager
unfolding beat
update_heartbeat node_id used_bytes chunk_count now cm = elim (lookup node_id cm.nodes) [
  | none ↦ (err (unknown_node node_id), cm)
  | some n ↦
      (ok tt, record cm { nodes = modify node_id (beat used_bytes chunk_count now) cm.nodes })
]

-- A write to no entry is none: `modify` leaves a map without the key as it is.
unfoldable pub update_node_health : Str → NodeStatus → Float64 → ChunkManager → ChunkManager
update_node_health node_id status risk cm = record cm {
  nodes = modify node_id (λ n. record n { status = status; risk_score = risk }) cm.nodes;
}

unfoldable pub get_node : ChunkManager → Str → Option DataNodeInfo
get_node cm node_id = lookup node_id cm.nodes

unfoldable pub get_all_nodes : ChunkManager → List DataNodeInfo
get_all_nodes cm = values cm.nodes

abbrev pub receives_chunks : NodeStatus → Bool
receives_chunks healthy = true
receives_chunks warning = true
receives_chunks _ = false

-- Nodes that are safe to receive new chunks. On a monotonic clock `now` is not before a heartbeat.
unfoldable pub can_receive : ℕ → DataNodeInfo → Bool
can_receive now n = receives_chunks n.status && ltb (now - n.last_heartbeat) dead_node_timeout

-- The pointers to them, in the order of the map's iteration.
unfoldable pub healthy_nodes : ℕ → Map DataNodeInfo → List Str
unfolding can_receive
healthy_nodes now [] = []
healthy_nodes now ((k, n) ∷ rest) =
    if can_receive now n then k ∷ healthy_nodes now rest else healthy_nodes now rest

unfoldable pub is_stale : ℕ → DataNodeInfo → Bool
is_stale now n = not (is_dead n.status) && ltb dead_node_timeout (now - n.last_heartbeat)

unfoldable pub mark_dead : ℕ → Map DataNodeInfo → List Str × Map DataNodeInfo
unfolding is_stale
mark_dead now [] = ([], [])
mark_dead now ((k, n) ∷ rest) =
    let (ids, rest') = mark_dead now rest in
    if is_stale now n
    then (n.node_id ∷ ids, (k, record n { status = dead }) ∷ rest')
    else (ids, (k, n) ∷ rest')

unfoldable pub check_dead_nodes : ℕ → ChunkManager → List Str × ChunkManager
check_dead_nodes now cm =
    let (ids, nodes) = mark_dead now cm.nodes in (ids, record cm { nodes = nodes })

unfoldable pub get_chunks_on_node : ChunkManager → Str → List Str
get_chunks_on_node cm node_id = elim (lookup node_id cm.nodes) [ none ↦ [] | some n ↦ n.chunks ]
