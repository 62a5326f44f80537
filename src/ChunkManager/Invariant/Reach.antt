-- ===== src/ChunkManager/Invariant/Reach.antt =====
-- Every sequence of operations of the chunk manager, from `NewChunkManager`, keeps its invariant.
use sentinel_fs.Prelude.{
  ℕ, ◌≡◌, refl, sym, ◌∙◌, inl, inr, Str, some, List, [], leb, ltb, Bool-cases, Option-cases, lookup,
  length, Int64, arith,
}
use sentinel_fs.ChunkManager.State.{DataNodeInfo, ChunkMeta, ChunkManager, new_chunk_manager}
use sentinel_fs.ChunkManager.Nodes.{
  update_heartbeat, beat, update_node_health, healthy_nodes, check_dead_nodes,
}
use sentinel_fs.ChunkManager.Placement.{max_pointers, allocate_chunks}
use sentinel_fs.ChunkManager.Placement.Targets.{healthy_nodes-Registered, healthy_nodes-Distinct}
use sentinel_fs.ChunkManager.Replicas.{
  hold, remove_chunks, update_chunk_checksum, add_chunk_to_node, remove_chunk_from_node,
}
use sentinel_fs.ChunkManager.Invariant.Registry.{NodesInv, SameNodes-NodesInv, modify-SameNodes}
use sentinel_fs.ChunkManager.Invariant.Register.{mark_dead-SameNodes}
use sentinel_fs.ChunkManager.Invariant.Entry.{register_node-NodesInv}
use sentinel_fs.ChunkManager.Invariant.Held.{ChunksInv, holds, ChunksInv-nodes, holds-modify}
use sentinel_fs.ChunkManager.Invariant.Moves.{
  register_node-ChunksInv, update_heartbeat-ChunksInv, mark_dead-ChunksInv, checksum-ChunksInv,
  add_chunk_to_node-ChunksInv,
}
use sentinel_fs.ChunkManager.Invariant.Removal.{
  remove_chunk_from_node-ChunksInv, remove_all-ChunksInv,
}
use sentinel_fs.ChunkManager.Invariant.Placing.{
  hold-SameNode, place_chunks-SameNodes, place_chunks-ChunksInv,
}
use sentinel_fs.ChunkManager.Invariant.Steps.{
  OnRegistered, AllOnRegistered, Inv, SameMap, Step, Reach, registers, beats, grades, allocates,
  removes, sums, adds, drops, checks, reorders, start, next,
}
use sentinel_fs.ChunkManager.Invariant.Same.{beat-SameNode, forget-SameNodes, remove_all-SameNodes}

allocate_chunks-NodesInv :
    (sha256 : List ℕ → List ℕ) (path : Str) (size count : Int64) (now : ℕ) (cm : ChunkManager)
    → NodesInv cm.nodes
    → NodesInv (allocate_chunks sha256 path size count now cm).1.nodes
unfolding allocate_chunks
allocate_chunks-NodesInv sha256 path size count now cm v =
    elim (Bool-cases (leb (length (healthy_nodes now cm.nodes)) 0)) [
      | inl empty ↦ rw empty v
      | inr some_healthy ↦ elim (Bool-cases (ltb max_pointers count)) [
        | inl too_long ↦ rw (some_healthy, too_long) v
        | inr counts ↦
            rw (some_healthy, counts)
              (SameNodes-NodesInv
                (place_chunks-SameNodes sha256 path size (healthy_nodes now cm.nodes) _ count 0 cm)
                v)
      ]
    ]

allocate_chunks-ChunksInv :
    (sha256 : List ℕ → List ℕ) (path : Str) (size count : Int64) (now : ℕ) (cm : ChunkManager)
    → NodesInv cm.nodes
    → ChunksInv cm.nodes cm.chunks
    → let cm' = (allocate_chunks sha256 path size count now cm).1 in ChunksInv cm'.nodes cm'.chunks
unfolding allocate_chunks
allocate_chunks-ChunksInv sha256 path size count now cm nv v =
    elim (Bool-cases (leb (length (healthy_nodes now cm.nodes)) 0)) [
      | inl empty ↦ rw empty v
      | inr some_healthy ↦ elim (Bool-cases (ltb max_pointers count)) [
        | inl too_long ↦ rw (some_healthy, too_long) v
        | inr counts ↦
            rw (some_healthy, counts)
              (place_chunks-ChunksInv sha256 path size (healthy_nodes now cm.nodes) _ count 0 cm
                (healthy_nodes-Distinct now cm.nodes nv.keys_distinct)
                (healthy_nodes-Registered now cm.nodes) nv v)
      ]
    ]

reorder-NodesInv :
    (cm cm' : ChunkManager) → SameMap cm.nodes cm'.nodes → NodesInv cm.nodes → NodesInv cm'.nodes
reorder-NodesInv cm cm' ns nv = record {
  keys_distinct = ns.keys_distinct;
  id_is_key = λ k n e. nv.id_is_key k n (node k n e);
  chunks_distinct = λ k n e. nv.chunks_distinct k n (node k n e);
  named = λ k n e. rw ns.same_length (nv.named k n (node k n e));
  one_address = λ j k m n e f. nv.one_address j k m n (node j m e) (node k n f);
}
  where
    node : (k : Str) (n : DataNodeInfo) → lookup k cm'.nodes ≡ some n → lookup k cm.nodes ≡ some n
    node k n e = sym (ns.same_lookup k) ∙ e

reorder-ChunksInv :
    (cm cm' : ChunkManager)
    → SameMap cm.nodes cm'.nodes
    → SameMap cm.chunks cm'.chunks
    → ChunksInv cm.nodes cm.chunks
    → ChunksInv cm'.nodes cm'.chunks
unfolding holds
reorder-ChunksInv cm cm' ns cs cv = record {
  chunk_keys = cs.keys_distinct;
  id_of_meta = λ c m e. cv.id_of_meta c m (chunk c m e);
  nodes_distinct = λ c m e. cv.nodes_distinct c m (chunk c m e);
  held = λ c m k e h. ground (arith, cv.held c m k (chunk c m e) h, ns.same_lookup k);
}
  where
    chunk : (c : Str) (m : ChunkMeta) → lookup c cm'.chunks ≡ some m → lookup c cm.chunks ≡ some m
    chunk c m e = sym (cs.same_lookup c) ∙ e

Step-NodesInv :
    (sha256 : List ℕ → List ℕ) {cm cm' : ChunkManager}
    → Step sha256 cm cm'
    → NodesInv cm.nodes
    → NodesInv cm'.nodes
unfolding update_node_health update_heartbeat check_dead_nodes remove_chunks add_chunk_to_node
    remove_chunk_from_node update_chunk_checksum
Step-NodesInv sha256 {cm = cm} (registers a c t) v = register_node-NodesInv a c t cm v
Step-NodesInv sha256 {cm = cm} (beats k u c t) v = elim (Option-cases (lookup k cm.nodes)) [
  | inl out ↦ rw (out, update_heartbeat) v
  | inr (n, found) ↦
      rw (found, update_heartbeat)
        (SameNodes-NodesInv (modify-SameNodes k (beat u c t) cm.nodes (beat-SameNode u c t)) v)
]
Step-NodesInv sha256 {cm = cm} (grades k s r) v =
    SameNodes-NodesInv
      (modify-SameNodes k _ cm.nodes
        (λ n. record { same_id = refl; same_address = refl; still_distinct = λ d. d }))
      v
Step-NodesInv sha256 {cm = cm} (allocates p s c t) v = allocate_chunks-NodesInv sha256 p s c t cm v
Step-NodesInv sha256 {cm = cm} (removes ids) v =
    SameNodes-NodesInv (remove_all-SameNodes ids [] cm) v
Step-NodesInv sha256 {cm = cm} (sums c s) v = v
Step-NodesInv sha256 {cm = cm} (adds c k) v =
    SameNodes-NodesInv (modify-SameNodes k (hold c) cm.nodes (hold-SameNode c)) v
Step-NodesInv sha256 {cm = cm} (drops c k) v = SameNodes-NodesInv (forget-SameNodes c k cm.nodes) v
Step-NodesInv sha256 {cm = cm} (checks t) v = SameNodes-NodesInv (mark_dead-SameNodes t cm.nodes) v
Step-NodesInv sha256 {cm = cm} (reorders cm' ns cs) v = reorder-NodesInv cm cm' ns v

Step-ChunksInv :
    (sha256 : List ℕ → List ℕ) {cm cm' : ChunkManager} (s : Step sha256 cm cm')
    → OnRegistered s
    → NodesInv cm.nodes
    → ChunksInv cm.nodes cm.chunks
    → ChunksInv cm'.nodes cm'.chunks
unfolding update_node_health update_heartbeat check_dead_nodes remove_chunks add_chunk_to_node
    remove_chunk_from_node update_chunk_checksum
Step-ChunksInv sha256 {cm = cm} (registers a c t) on nv v = register_node-ChunksInv a c t cm nv v
Step-ChunksInv sha256 {cm = cm} (beats k u c t) on nv v = update_heartbeat-ChunksInv k u c t cm v
Step-ChunksInv sha256 {cm = cm} (grades k s r) on nv v =
    ChunksInv-nodes (λ j c h. holds-modify cm.nodes k _ j c (λ n e. e) h) v
Step-ChunksInv sha256 {cm = cm} (allocates p s c t) on nv v =
    allocate_chunks-ChunksInv sha256 p s c t cm nv v
Step-ChunksInv sha256 {cm = cm} (removes ids) on nv v = remove_all-ChunksInv ids [] cm v
Step-ChunksInv sha256 {cm = cm} (sums c s) on nv v = checksum-ChunksInv c s cm v
Step-ChunksInv sha256 {cm = cm} (adds c k) (n, found) nv v =
    add_chunk_to_node-ChunksInv c k cm n found v
Step-ChunksInv sha256 {cm = cm} (drops c k) on nv v = remove_chunk_from_node-ChunksInv c k cm v
Step-ChunksInv sha256 {cm = cm} (checks t) on nv v = mark_dead-ChunksInv t v
Step-ChunksInv sha256 {cm = cm} (reorders cm' ns cs) on nv v = reorder-ChunksInv cm cm' ns cs v

pub Step-Inv :
    (sha256 : List ℕ → List ℕ) {cm cm' : ChunkManager} (s : Step sha256 cm cm')
    → OnRegistered s
    → Inv cm
    → Inv cm'
Step-Inv sha256 s on v = record {
  registry = Step-NodesInv sha256 s v.registry;
  records = Step-ChunksInv sha256 s on v.registry v.records;
}

pub new_chunk_manager-Inv : Inv new_chunk_manager
unfolding new_chunk_manager lookup
new_chunk_manager-Inv = record {
  registry = record {
    keys_distinct = tt;
    id_is_key = λ k n e. cc;
    chunks_distinct = λ k n e. cc;
    named = λ k n e. cc;
    one_address = λ j k m n e f s. cc;
  };
  records = record {
    chunk_keys = tt;
    id_of_meta = λ c m e. cc;
    nodes_distinct = λ c m e. cc;
    held = λ c m k e h. cc;
  };
}

-- After any sequence of operations and reorderings from `NewChunkManager`: the keys of the registry are
-- distinct, every node stands under its own id, which is `node-i` for some i up to the number of
-- nodes, no two nodes share an address. If each call of `AddChunkToNode` in it was for a node that
-- was registered then: the keys of the chunk records are distinct, every record stands under its own
-- id and lists no node twice, and every node that it lists is registered and holds the chunk.
pub Reach-Inv :
    (sha256 : List ℕ → List ℕ) {cm : ChunkManager} (r : Reach sha256 cm)
    → NodesInv cm.nodes × (AllOnRegistered r → ChunksInv cm.nodes cm.chunks)
Reach-Inv sha256 start = (new_chunk_manager-Inv.registry, λ on. new_chunk_manager-Inv.records)
Reach-Inv sha256 (next r s) =
    let (registry, records) = Reach-Inv sha256 r in
    (Step-NodesInv sha256 s registry, λ on. Step-ChunksInv sha256 s on.1 registry (records on.0))
