-- ===== src/ChunkManager/Locations.antt =====
-- Where chunks are: `GetChunkLocations`, `GetChunkMeta`, `GetUnderReplicatedChunks` and
-- `GetNodeByAddress` of chunk_manager.go.
pub mod Live
pub mod Found
pub mod Fresh
use sentinel_fs.Prelude.{
  ℕ, List, [], ◌∷◌, map, Option, none, some, Bool, true, false, Str, Map, lookup, length, ltb,
  if◌then◌else◌, Result, ok, err, ◌>>=◌, values,
}
use sentinel_fs.Config.{default_replication_factor}
use sentinel_fs.ChunkManager.State.{
  DataNodeInfo, ChunkMeta, ChunkManager, ChunkError, chunk_not_found, no_live_nodes,
}
use sentinel_fs.ChunkManager.Nodes.{is_dead, find_address}

pub record ChunkLocationInfo : Type 0 where
  pub chunk_id : Str
  pub chunk_index : ℕ
  pub node_addresses : List Str
  pub node_ids : List Str

-- The replicas that are registered and not dead, each with its address.
unfoldable pub live_replicas : Map DataNodeInfo → List Str → List (Str × Str)
live_replicas nodes [] = []
live_replicas nodes (nid ∷ nids) = elim (lookup nid nodes) [
  | none ↦ live_replicas nodes nids
  | some n ↦
      if is_dead n.status
      then live_replicas nodes nids
      else (nid, n.address) ∷ live_replicas nodes nids
]

unfoldable pub location_of :
    Str → ChunkMeta → List (Str × Str) → Result ChunkError ChunkLocationInfo
location_of cid meta [] = err (no_live_nodes cid)
location_of cid meta (r ∷ rs) = ok (record {
  chunk_id = meta.chunk_id;
  chunk_index = meta.chunk_index;
  node_addresses = map (λ p. p.1) (r ∷ rs);
  node_ids = map (λ p. p.0) (r ∷ rs);
})

-- The body of the loop of `GetChunkLocations`.
unfoldable pub chunk_location : ChunkManager → Str → Result ChunkError ChunkLocationInfo
unfolding location_of
chunk_location cm cid = elim (lookup cid cm.chunks) [
  | none ↦ err (chunk_not_found cid)
  | some meta ↦ location_of cid meta (live_replicas cm.nodes meta.node_ids)
]

unfoldable pub get_chunk_locations :
    ChunkManager → List Str → Result ChunkError (List ChunkLocationInfo)
get_chunk_locations cm [] = ok []
get_chunk_locations cm (cid ∷ cids) = do
  loc ← chunk_location cm cid
  locs ← get_chunk_locations cm cids
  ok (loc ∷ locs)

unfoldable pub get_chunk_meta : ChunkManager → Str → Option ChunkMeta
get_chunk_meta cm chunk_id = lookup chunk_id cm.chunks

unfoldable pub get_node_by_address : ChunkManager → Str → Option DataNodeInfo
unfolding find_address
get_node_by_address cm addr = elim (find_address addr cm.nodes) [
  | none ↦ none
  | some (k, n) ↦ some n
]

unfoldable pub under_replicated : Map DataNodeInfo → List ChunkMeta → List ChunkMeta
unfolding live_replicas
under_replicated nodes [] = []
under_replicated nodes (meta ∷ metas) =
    if ltb (length (live_replicas nodes meta.node_ids)) default_replication_factor
    then meta ∷ under_replicated nodes metas
    else under_replicated nodes metas

unfoldable pub get_under_replicated_chunks : ChunkManager → List ChunkMeta
unfolding under_replicated
get_under_replicated_chunks cm = under_replicated cm.nodes (values cm.chunks)
