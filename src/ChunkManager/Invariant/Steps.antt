-- ===== src/ChunkManager/Invariant/Steps.antt =====
-- The operations of the chunk manager as steps of one state.
use sentinel_fs.Prelude.{ℕ, ◌≡◌, Str, Map, some, List, lookup, keys, length, Distinct, Int64}
use sentinel_fs.Float64.{Float64}
use sentinel_fs.Config.{NodeStatus}
use sentinel_fs.ChunkManager.State.{DataNodeInfo, ChunkManager, new_chunk_manager}
use sentinel_fs.ChunkManager.Nodes.{
  register_node, update_heartbeat, update_node_health, check_dead_nodes,
}
use sentinel_fs.ChunkManager.Placement.{allocate_chunks}
use sentinel_fs.ChunkManager.Replicas.{
  remove_chunks, update_chunk_checksum, add_chunk_to_node, remove_chunk_from_node,
}
use sentinel_fs.ChunkManager.Invariant.Registry.{NodesInv}
use sentinel_fs.ChunkManager.Invariant.Held.{ChunksInv}

-- The registry is well formed, and the chunk records are true of it.
pub record Inv (cm : ChunkManager) : Type 0 where
  pub registry : NodesInv cm.nodes
  pub records : ChunksInv cm.nodes cm.chunks

-- Two association lists that are one Go map.
pub record SameMap {V : Type 0} (m m' : Map V) : Type 0 where
  pub same_lookup : (k : Str) → lookup k m' ≡ lookup k m
  pub same_length : length m' ≡ length m
  pub keys_distinct : Distinct (keys m')

-- One operation under the lock, by whichever caller, or a new order of the maps' entries.
pub data Step (sha256 : List ℕ → List ℕ) (cm : ChunkManager) : ChunkManager → Type 0 where
  registers :
      (address : Str) (capacity : Int64) (now : ℕ)
      → Step sha256 cm (register_node address capacity now cm).1
  beats :
      (node_id : Str) (used_bytes : Int64) (chunk_count now : ℕ)
      → Step sha256 cm (update_heartbeat node_id used_bytes chunk_count now cm).1
  grades :
      (node_id : Str) (status : NodeStatus) (risk : Float64)
      → Step sha256 cm (update_node_health node_id status risk cm)
  allocates :
      (path : Str) (size chunk_count : Int64) (now : ℕ)
      → Step sha256 cm (allocate_chunks sha256 path size chunk_count now cm).1
  removes : (chunk_ids : List Str) → Step sha256 cm (remove_chunks chunk_ids cm).1
  sums : (chunk_id checksum : Str) → Step sha256 cm (update_chunk_checksum chunk_id checksum cm)
  adds : (chunk_id node_id : Str) → Step sha256 cm (add_chunk_to_node chunk_id node_id cm)
  drops : (chunk_id node_id : Str) → Step sha256 cm (remove_chunk_from_node chunk_id node_id cm)
  checks : (now : ℕ) → Step sha256 cm (check_dead_nodes now cm).1
  reorders :
      (cm' : ChunkManager)
      → SameMap cm.nodes cm'.nodes
      → SameMap cm.chunks cm'.chunks
      → Step sha256 cm cm'

-- `AddChunkToNode` is only called for a registered node, as the migrator does, which takes its target
-- from the registry.
abbrev pub OnRegistered :
    {sha256 : List ℕ → List ℕ} {cm cm' : ChunkManager} → Step sha256 cm cm' → Type 0
OnRegistered {cm = cm} (adds chunk_id node_id) =
    (n : DataNodeInfo) × (lookup node_id cm.nodes ≡ some n)
OnRegistered _ = Unit

pub data Reach (sha256 : List ℕ → List ℕ) : ChunkManager → Type 0 where
  start : Reach sha256 new_chunk_manager
  next : {cm cm' : ChunkManager} → Reach sha256 cm → Step sha256 cm cm' → Reach sha256 cm'

-- Every step does that.
abbrev pub AllOnRegistered :
    {sha256 : List ℕ → List ℕ} {cm : ChunkManager} → Reach sha256 cm → Type 0
AllOnRegistered start = Unit
AllOnRegistered (next r s) = AllOnRegistered r × OnRegistered s
