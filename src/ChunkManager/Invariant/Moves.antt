-- ===== src/ChunkManager/Invariant/Moves.antt =====
-- Every operation on nodes and replicas keeps the chunk records true of the nodes.
use sentinel_fs.Prelude.{
  ℕ, ◌≡◌, refl, inl, inr, Str, Map, none, some, true, ◌==◌, eq_iff, eq_refl, Bool-cases,
  Option-cases, lookup, put, modify, insert, subst, mem, mem-insert, insert-Distinct, lookup-put,
  lookup-modify, arith, Int64,
}
use sentinel_fs.ChunkManager.State.{DataNodeInfo, ChunkMeta, ChunkManager}
use sentinel_fs.ChunkManager.Nodes.{find_address, register_node, update_heartbeat, beat, mark_dead}
use sentinel_fs.ChunkManager.Replicas.{hold, update_chunk_checksum, list_node, add_chunk_to_node}
use sentinel_fs.ChunkManager.Invariant.Registry.{NodesInv}
use sentinel_fs.ChunkManager.Invariant.Register.{node_name-fresh, lookup-mark_dead, age}
use sentinel_fs.ChunkManager.Invariant.Held.{
  holds, ChunksInv, holds-modify, ChunksInv-nodes, ChunksInv-meta,
}

holds-put_new :
    (nodes : Map DataNodeInfo) (k : Str) (n : DataNodeInfo) (j c : Str)
    → lookup k nodes ≡ none
    → holds nodes j c ≡ true
    → holds (put k n nodes) j c ≡ true
unfolding holds
holds-put_new nodes k n j c new h = ground (arith, lookup-put k j n nodes, eq_iff k j)

pub register_node-ChunksInv :
    (address : Str) (capacity : Int64) (now : ℕ) (cm : ChunkManager)
    → NodesInv cm.nodes
    → ChunksInv cm.nodes cm.chunks
    → let cm' = (register_node address capacity now cm).1 in ChunksInv cm'.nodes cm'.chunks
unfolding register_node
register_node-ChunksInv address capacity now cm nv v =
    elim (Option-cases (find_address address cm.nodes)) [
      | inl new ↦
          rw (new, register_node)
            (ChunksInv-nodes (λ j c h. holds-put_new cm.nodes _ _ j c (node_name-fresh nv) h) v)
      | inr (kn, known) ↦
          rw (known, register_node)
            (ChunksInv-nodes (λ j c h. holds-modify cm.nodes kn.0 _ j c (λ n e. e) h) v)
    ]

beat-chunks :
    (used : Int64) (count now : ℕ) (n : DataNodeInfo) → (beat used count now n).chunks ≡ n.chunks
unfolding beat
beat-chunks used count now n = ground arith

pub update_heartbeat-ChunksInv :
    (k : Str) (used : Int64) (count now : ℕ) (cm : ChunkManager)
    → ChunksInv cm.nodes cm.chunks
    → let cm' = (update_heartbeat k used count now cm).1 in ChunksInv cm'.nodes cm'.chunks
unfolding update_heartbeat
update_heartbeat-ChunksInv k used count now cm v = elim (Option-cases (lookup k cm.nodes)) [
  | inl out ↦ rw (out, update_heartbeat) v
  | inr (n, found) ↦
      rw (found, update_heartbeat)
        (ChunksInv-nodes
          (λ j c h. holds-modify cm.nodes k (beat used count now) j c (λ m e. rw beat-chunks e) h)
          v)
]

holds-mark_dead :
    (now : ℕ) (nodes : Map DataNodeInfo) (j c : Str)
    → holds (mark_dead now nodes).1 j c ≡ holds nodes j c
unfolding holds age
holds-mark_dead now nodes j c = ground (arith, lookup-mark_dead now j nodes)

pub mark_dead-ChunksInv :
    (now : ℕ) {nodes : Map DataNodeInfo} {chunks : Map ChunkMeta}
    → ChunksInv nodes chunks
    → ChunksInv (mark_dead now nodes).1 chunks
mark_dead-ChunksInv now {nodes} v = ChunksInv-nodes (λ j c h. rw holds-mark_dead h) v

pub checksum-ChunksInv :
    (c sum : Str) (cm : ChunkManager)
    → ChunksInv cm.nodes cm.chunks
    → ChunksInv cm.nodes (update_chunk_checksum c sum cm).chunks
unfolding update_chunk_checksum
checksum-ChunksInv c sum cm v =
    ChunksInv-meta c _ (λ m. refl) (λ m d. d) (λ m j e h. v.held c m j e h) v

pub holds-hold :
    (nodes : Map DataNodeInfo) (k c : Str) (n : DataNodeInfo)
    → lookup k nodes ≡ some n
    → holds (modify k (hold c) nodes) k c ≡ true
unfolding holds hold
holds-hold nodes k c n found =
    ground (arith, lookup-modify k k (hold c) nodes, eq_refl k, mem-insert c c n.chunks, eq_refl c)

pub hold-keeps :
    (d c : Str) (n : DataNodeInfo) → mem c n.chunks ≡ true → mem c (hold d n).chunks ≡ true
unfolding hold
hold-keeps d c n h = ground (arith, mem-insert c d n.chunks)

-- A replica may be recorded on a node that is registered.
pub add_chunk_to_node-ChunksInv :
    (c k : Str) (cm : ChunkManager) (n : DataNodeInfo)
    → lookup k cm.nodes ≡ some n
    → ChunksInv cm.nodes cm.chunks
    → let cm' = add_chunk_to_node c k cm in ChunksInv cm'.nodes cm'.chunks
unfolding add_chunk_to_node list_node
add_chunk_to_node-ChunksInv c k cm n found v =
    ChunksInv-meta c (list_node k) (λ m. refl) (λ m d. insert-Distinct m.node_ids k d) listed kept
  where
    kept : ChunksInv (modify k (hold c) cm.nodes) cm.chunks
    kept = ChunksInv-nodes (λ j d h. holds-modify cm.nodes k (hold c) j d (hold-keeps c d) h) v

    listed :
        (m : ChunkMeta) (j : Str)
        → lookup c cm.chunks ≡ some m
        → mem j (insert k m.node_ids) ≡ true
        → holds (modify k (hold c) cm.nodes) j c ≡ true
    listed m j e h = elim (Bool-cases (k == j)) [
      | inl hit ↦
          subst (λ x. holds (modify k (hold c) cm.nodes) x c ≡ true) ((eq_iff k j).0 hit)
            (holds-hold cm.nodes k c n found)
      | inr miss ↦ kept.held c m j e (ground (arith, mem-insert j k m.node_ids))
    ]
