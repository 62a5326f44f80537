-- ===== src/ChunkManager/Invariant/Placing.antt =====
-- A placement keeps the chunk manager well formed, from any state and for any file.
use sentinel_fs.Prelude.{
  ℕ, zero, suc, ◌+◌, ◌≡◌, refl, sym, ap, ◌∙◌, subst, inl, inr, Str, Map, true, List, [], ◌∷◌, ◌==◌,
  eq_iff, Bool-cases, put, modify, mem, Distinct, arith, insert-Distinct, keys-modify,
  keys-put-Distinct, lookup-put_cases, lookup_of_mem-keys, Int64,
}
use sentinel_fs.Chunks.{generate_chunk_id}
use sentinel_fs.ChunkManager.State.{DataNodeInfo, ChunkMeta, ChunkManager}
use sentinel_fs.ChunkManager.Placement.{
  Candidate, load, select_nodes, add_to_targets, ids_of, place_chunk, place_chunks,
}
use sentinel_fs.ChunkManager.Placement.Targets.{
  Registered, Shown, pointers, load-Shown, pointers-load, select_nodes-All, select_nodes-Distinct,
  ids_of-pointers, Registered-keys, Shown-Registered,
}
use sentinel_fs.ChunkManager.Replicas.{hold}
use sentinel_fs.ChunkManager.Invariant.Registry.{
  NodesInv, SameNode, SameNodes, SameNodes-refl, SameNodes-trans, SameNodes-NodesInv,
  modify-SameNodes,
}
use sentinel_fs.ChunkManager.Invariant.Held.{holds, ChunksInv, holds-modify, ChunksInv-nodes}
use sentinel_fs.ChunkManager.Invariant.Moves.{holds-hold, hold-keeps}

pub hold-SameNode : (c : Str) (n : DataNodeInfo) → SameNode n (hold c n)
unfolding hold
hold-SameNode c n = record {
  same_id = refl;
  same_address = refl;
  still_distinct = insert-Distinct n.chunks c;
}

pub add_to_targets-SameNodes :
    (c : Str) (ts : List Candidate) (nodes : Map DataNodeInfo)
    → SameNodes nodes (add_to_targets c ts nodes)
unfolding add_to_targets hold
add_to_targets-SameNodes c [] nodes = SameNodes-refl nodes
add_to_targets-SameNodes c (t ∷ ts) nodes =
    SameNodes-trans (modify-SameNodes t.0 (hold c) nodes (hold-SameNode c))
      (add_to_targets-SameNodes c ts (modify t.0 (hold c) nodes))

add_to_targets-keeps :
    (c : Str) (ts : List Candidate) (nodes : Map DataNodeInfo) (k d : Str)
    → holds nodes k d ≡ true
    → holds (add_to_targets c ts nodes) k d ≡ true
unfolding add_to_targets hold
add_to_targets-keeps c [] nodes k d h = h
add_to_targets-keeps c (t ∷ ts) nodes k d h =
    add_to_targets-keeps c ts (modify t.0 (hold c) nodes) k d
      (holds-modify nodes t.0 (hold c) k d (hold-keeps c d) h)

-- Every registered target holds the chunk.
add_to_targets-holds :
    (c : Str) (ts : List Candidate) (nodes : Map DataNodeInfo) (k : Str)
    → Registered nodes (pointers ts)
    → mem k (pointers ts) ≡ true
    → holds (add_to_targets c ts nodes) k c ≡ true
unfolding add_to_targets hold mem
add_to_targets-holds c [] nodes k r h = cc
add_to_targets-holds c (t ∷ ts) nodes k r h = elim (Bool-cases (t.0 == k)) [
  | inl hit ↦
      let (n, found) = lookup_of_mem-keys t.0 nodes r.0 in
      add_to_targets-keeps c ts (modify t.0 (hold c) nodes) k c (
        subst (λ x. holds (modify t.0 (hold c) nodes) x c ≡ true) ((eq_iff t.0 k).0 hit)
          (holds-hold nodes t.0 c n found))
  | inr miss ↦
      add_to_targets-holds c ts (modify t.0 (hold c) nodes) k
        (Registered-keys nodes _ (pointers ts) (keys-modify t.0 (hold c) nodes) r.1) (ground arith)
]

-- A chunk record enters that lists nodes which hold the chunk.
pub put-ChunksInv :
    {nodes : Map DataNodeInfo} {chunks : Map ChunkMeta} (m : ChunkMeta)
    → Distinct m.node_ids
    → ((k : Str) → mem k m.node_ids ≡ true → holds nodes k m.chunk_id ≡ true)
    → ChunksInv nodes chunks
    → ChunksInv nodes (put m.chunk_id m chunks)
put-ChunksInv {nodes} {chunks} m distinct all v = record {
  chunk_keys = keys-put-Distinct m.chunk_id m chunks v.chunk_keys;
  id_of_meta = λ c m' e. elim (lookup-put_cases m.chunk_id m chunks c m' e) [
    | inl (at, is) ↦ ap (λ x. x.chunk_id) (sym is) ∙ at
    | inr (_, old) ↦ v.id_of_meta c m' old
  ];
  nodes_distinct = λ c m' e. elim (lookup-put_cases m.chunk_id m chunks c m' e) [
    | inl (at, is) ↦ subst (λ x. Distinct x.node_ids) is distinct
    | inr (_, old) ↦ v.nodes_distinct c m' old
  ];
  held = λ c m' k e h. elim (lookup-put_cases m.chunk_id m chunks c m' e) [
    | inl (at, is) ↦
        subst (λ x. holds nodes k x ≡ true) at
          (all k (subst (λ x. mem k x.node_ids ≡ true) (sym is) h))
    | inr (_, old) ↦ v.held c m' k old h
  ];
}

module _ (sha256 : List ℕ → List ℕ) (path : Str) (size : Int64) (healthy : List Str)
    (count : ℕ) where
  pub place_chunk-SameNodes :
      (i : ℕ) (cm : ChunkManager)
      → SameNodes cm.nodes (place_chunk sha256 path size healthy count i cm).1.nodes
  unfolding place_chunk
  place_chunk-SameNodes i cm =
      add_to_targets-SameNodes (generate_chunk_id sha256 path i)
        (select_nodes (load cm.nodes healthy) count) cm.nodes

  place_chunk-ChunksInv :
      (i : ℕ) (cm : ChunkManager)
      → Distinct healthy
      → Registered cm.nodes healthy
      → NodesInv cm.nodes
      → ChunksInv cm.nodes cm.chunks
      → let cm' = (place_chunk sha256 path size healthy count i cm).1 in
        ChunksInv cm'.nodes cm'.chunks
  unfolding place_chunk
  place_chunk-ChunksInv i cm d r nv v =
      put-ChunksInv _ (rw same distinct) (λ k h. listed k (subst (λ l. mem k l ≡ true) same h))
        (ChunksInv-nodes (add_to_targets-keeps c targets cm.nodes) v)
    where
      c : Str
      c = generate_chunk_id sha256 path i

      targets : List Candidate
      targets = select_nodes (load cm.nodes healthy) count

      shown : Shown cm.nodes targets
      shown = select_nodes-All _ (load cm.nodes healthy) count (load-Shown cm.nodes healthy)

      same : ids_of targets ≡ pointers targets
      same = ids_of-pointers cm.nodes targets nv.id_is_key shown

      distinct : Distinct (pointers targets)
      distinct =
          select_nodes-Distinct (load cm.nodes healthy) count
            (rw (pointers-load cm.nodes healthy r) d)

      listed :
          (k : Str)
          → mem k (pointers targets) ≡ true
          → holds (add_to_targets c targets cm.nodes) k c ≡ true
      listed k h =
          add_to_targets-holds c targets cm.nodes k (Shown-Registered cm.nodes targets shown) h

  pub place_chunks-SameNodes :
      (rounds i : ℕ) (cm : ChunkManager)
      → SameNodes cm.nodes (place_chunks sha256 path size healthy count rounds i cm).1.nodes
  unfolding place_chunks
  place_chunks-SameNodes zero i cm = SameNodes-refl cm.nodes
  place_chunks-SameNodes (suc rounds) i cm =
      let cm' = (place_chunk sha256 path size healthy count i cm).1 in
      SameNodes-trans (place_chunk-SameNodes i cm) (place_chunks-SameNodes rounds (i + 1) cm')

  pub place_chunks-ChunksInv :
      (rounds i : ℕ) (cm : ChunkManager)
      → Distinct healthy
      → Registered cm.nodes healthy
      → NodesInv cm.nodes
      → ChunksInv cm.nodes cm.chunks
      → let cm' = (place_chunks sha256 path size healthy count rounds i cm).1 in
        ChunksInv cm'.nodes cm'.chunks
  unfolding place_chunks
  place_chunks-ChunksInv zero i cm d r nv v = v
  place_chunks-ChunksInv (suc rounds) i cm d r nv v =
      let cm' = (place_chunk sha256 path size healthy count i cm).1 in
      let same : SameNodes cm.nodes cm'.nodes = place_chunk-SameNodes i cm in
      place_chunks-ChunksInv rounds (i + 1) cm' d
        (Registered-keys cm.nodes cm'.nodes healthy same.same_keys r) (SameNodes-NodesInv same nv)
        (place_chunk-ChunksInv i cm d r nv v)
