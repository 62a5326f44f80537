-- ===== src/ChunkManager/Replicas.antt =====
-- Changes to the chunk records: `RemoveChunks`, `UpdateChunkChecksum`, `AddChunkToNode` and
-- `RemoveChunkFromNode` of chunk_manager.go.
pub mod Holding
pub mod Deletion
pub mod Migration
use sentinel_fs.Prelude.{
  List, [], ◌∷◌, ◌++◌, Option, none, some, Str, Map, lookup, put, delete, modify, insert, erase,
}
use sentinel_fs.ChunkManager.State.{DataNodeInfo, ChunkMeta, ChunkManager}

-- delete(node.Chunks, cid)
unfoldable pub forget : Str → DataNodeInfo → DataNodeInfo
forget cid n = record n { chunks = erase cid n.chunks }

-- node.Chunks[cid] = true
unfoldable pub hold : Str → DataNodeInfo → DataNodeInfo
hold cid n = record n { chunks = insert cid n.chunks }

-- if node, ok := cm.nodes[nid]; ok { nodeAddrs[node.Address] = true }
unfoldable pub meet : Map DataNodeInfo → Str → List Str → List Str
meet nodes nid addrs = elim (lookup nid nodes) [ none ↦ addrs | some n ↦ insert n.address addrs ]

-- The inner loop of `RemoveChunks`, with the addresses of the nodes that it meets.
unfoldable pub forget_on :
    Str → List Str → List Str → Map DataNodeInfo → List Str × Map DataNodeInfo
unfolding forget
forget_on cid [] addrs nodes = (addrs, nodes)
forget_on cid (nid ∷ nids) addrs nodes =
    forget_on cid nids (meet nodes nid addrs) (modify nid (forget cid) nodes)

-- The body of the outer loop.
unfoldable pub remove_chunk : Str → List Str → ChunkManager → List Str × ChunkManager
unfolding forget_on
remove_chunk cid addrs cm = elim (lookup cid cm.chunks) [
  | none ↦ (addrs, cm)
  | some meta ↦
      let (addrs', nodes) = forget_on cid meta.node_ids addrs cm.nodes in
      (addrs', record { nodes = nodes; chunks = delete cid cm.chunks })
]

unfoldable pub remove_all : List Str → List Str → ChunkManager → List Str × ChunkManager
unfolding remove_chunk
remove_all [] addrs cm = (addrs, cm)
remove_all (cid ∷ cids) addrs cm =
    let (addrs', cm') = remove_chunk cid addrs cm in remove_all cids addrs' cm'

unfoldable pub remove_chunks : List Str → ChunkManager → List Str × ChunkManager
unfolding remove_all
remove_chunks chunk_ids cm = remove_all chunk_ids [] cm

unfoldable pub update_chunk_checksum : Str → Str → ChunkManager → ChunkManager
update_chunk_checksum chunk_id checksum cm = record cm {
  chunks = modify chunk_id (λ m. record m { checksum = checksum }) cm.chunks;
}

-- A node that has the chunk already is not listed twice.
unfoldable pub list_node : Str → ChunkMeta → ChunkMeta
list_node node_id m = record m { node_ids = insert node_id m.node_ids }

unfoldable pub unlist_node : Str → ChunkMeta → ChunkMeta
unlist_node node_id m = record m { node_ids = erase node_id m.node_ids }

unfoldable pub add_chunk_to_node : Str → Str → ChunkManager → ChunkManager
unfolding hold list_node
add_chunk_to_node chunk_id node_id cm = record {
  nodes = modify node_id (hold chunk_id) cm.nodes;
  chunks = modify chunk_id (list_node node_id) cm.chunks;
}

unfoldable pub remove_chunk_from_node : Str → Str → ChunkManager → ChunkManager
unfolding forget unlist_node
remove_chunk_from_node chunk_id node_id cm = record {
  nodes = modify node_id (forget chunk_id) cm.nodes;
  chunks = modify chunk_id (unlist_node node_id) cm.chunks;
}
