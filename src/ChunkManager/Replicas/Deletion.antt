-- ===== src/ChunkManager/Replicas/Deletion.antt =====
-- `RemoveChunks` removes the records of the chunks that it is given, and nothing else.
use sentinel_fs.Prelude.{
  ◌≡◌, refl, subst, inl, inr, Str, Map, none, some, true, false, ◌&&◌, List, [], ◌∷◌, ◌==◌, eq_iff,
  eq_refl, if◌then◌else◌, Bool-cases, Option-cases, lookup, modify, mem, lookup-delete, arith,
}
use sentinel_fs.ChunkManager.State.{DataNodeInfo, ChunkMeta, ChunkManager}
use sentinel_fs.ChunkManager.Replicas.{
  forget, meet, forget_on, remove_chunk, remove_all, remove_chunks,
}
use sentinel_fs.ChunkManager.Replicas.Holding.{holds-forget_iff}
use sentinel_fs.ChunkManager.Invariant.Registry.{NodesInv, SameNodes-NodesInv}
use sentinel_fs.ChunkManager.Invariant.Held.{holds}
use sentinel_fs.ChunkManager.Invariant.Removal.{remove_chunk-ChunksInv}
use sentinel_fs.ChunkManager.Invariant.Same.{remove_chunk-SameNodes, forget-SameNodes}
use sentinel_fs.ChunkManager.Invariant.Steps.{Inv}

-- The nodes of a list forget `c`, and nothing else changes in what is held.
holds-forget_on :
    (c : Str) (ids addrs : List Str) (nodes : Map DataNodeInfo) (k d : Str)
    → NodesInv nodes
    → holds (forget_on c ids addrs nodes).1 k d
      ≡ (if c == d && mem k ids then false else holds nodes k d)
unfolding forget_on mem
holds-forget_on c [] addrs nodes k d v = ground arith
holds-forget_on c (j ∷ ids) addrs nodes k d v = ground (
  arith,
  holds-forget_on c ids (meet nodes j addrs) (modify j (forget c) nodes) k d
      (SameNodes-NodesInv (forget-SameNodes c j nodes) v),
  holds-forget_iff nodes j c k d (v.chunks_distinct k),
)

-- What one round of the outer loop does.
record Removed (c : Str) (cm cm' : ChunkManager) : Type 0 where
  records : (d : Str) → lookup d cm'.chunks ≡ (if c == d then none else lookup d cm.chunks)
  others : (k d : Str) → (c == d) ≡ false → holds cm'.nodes k d ≡ holds cm.nodes k d
  gone :
      (m : ChunkMeta) (k : Str)
      → lookup c cm.chunks ≡ some m
      → mem k m.node_ids ≡ true
      → holds cm'.nodes k c ≡ false
  stays_gone : (k d : Str) → holds cm.nodes k d ≡ false → holds cm'.nodes k d ≡ false

remove_chunk-Removed :
    (c : Str) (addrs : List Str) (cm : ChunkManager)
    → Inv cm
    → Removed c cm (remove_chunk c addrs cm).1
unfolding remove_chunk
remove_chunk-Removed c addrs cm v = elim (Option-cases (lookup c cm.chunks)) [
  | inl out ↦
      rw (out, remove_chunk)
        (record {
          records = λ d. ground (arith, eq_iff c d);
          others = λ k d ne. refl;
          gone = λ m k e h. cc;
          stays_gone = λ k d h. h;
        })
  | inr (m, found) ↦
      rw (found, remove_chunk)
        (record {
          records = λ d. lookup-delete c d cm.chunks v.records.chunk_keys;
          others =
              λ k d ne. ground (arith, holds-forget_on c m.node_ids addrs cm.nodes k d v.registry);
          gone = λ m' k e h.
              ground (arith, holds-forget_on c m.node_ids addrs cm.nodes k c v.registry, eq_refl c);
          stays_gone =
              λ k d h. ground (arith, holds-forget_on c m.node_ids addrs cm.nodes k d v.registry);
        })
]

remove_chunk-Inv :
    (c : Str) (addrs : List Str) (cm : ChunkManager) → Inv cm → Inv (remove_chunk c addrs cm).1
remove_chunk-Inv c addrs cm v = record {
  registry = SameNodes-NodesInv (remove_chunk-SameNodes c addrs cm) v.registry;
  records = remove_chunk-ChunksInv c addrs cm v.records;
}

remove_all-Removed :
    (cids addrs : List Str) (cm : ChunkManager)
    → Inv cm
    → let cm' = (remove_all cids addrs cm).1 in
      ((d : Str) → lookup d cm'.chunks ≡ (if mem d cids then none else lookup d cm.chunks))
      × ((k d : Str) → mem d cids ≡ false → holds cm'.nodes k d ≡ holds cm.nodes k d)
      × ((d : Str) (m : ChunkMeta) (k : Str)
          → mem d cids ≡ true
          → lookup d cm.chunks ≡ some m
          → mem k m.node_ids ≡ true
          → holds cm'.nodes k d ≡ false)
      × ((k d : Str) → holds cm.nodes k d ≡ false → holds cm'.nodes k d ≡ false)
unfolding remove_all mem
remove_all-Removed [] addrs cm v = ((λ d. refl), (λ k d h. refl), (λ d m k h e l. cc), (λ k d h. h))
remove_all-Removed (c ∷ cids) addrs cm v =
    let r = remove_chunk c addrs cm in
    let one = remove_chunk-Removed c addrs cm v in
    let rest = remove_all-Removed cids r.0 r.1 (remove_chunk-Inv c addrs cm v) in
    (
      (λ d. ground (arith, one.records d, rest.0 d)),
      (λ k d h. ground (arith, one.others k d, rest.1 k d)),
      (λ d m k h e l. elim (Bool-cases (c == d)) [
        | inl same ↦
            let is : c ≡ d = (eq_iff c d).0 same in
            rest.3 k d (subst (λ x. holds r.1.nodes k x ≡ false) is (one.gone m k (rw is e) l))
        | inr other ↦ rest.2 d m k (ground arith) (ground (arith, one.records d)) l
      ]),
      (λ k d h. rest.3 k d (one.stays_gone k d h)),
    )

-- In a well-formed state, after the removal of some chunks: their records are gone and every other
-- record is as it was; the nodes that a removed record listed no longer hold the chunk; and what any
-- node holds of the other chunks stays.
pub remove_chunks_lem :
    (chunk_ids : List Str) (cm : ChunkManager)
    → Inv cm
    → let cm' = (remove_chunks chunk_ids cm).1 in
      ((d : Str) → lookup d cm'.chunks ≡ (if mem d chunk_ids then none else lookup d cm.chunks))
      × ((d : Str) (m : ChunkMeta) (k : Str)
          → mem d chunk_ids ≡ true
          → lookup d cm.chunks ≡ some m
          → mem k m.node_ids ≡ true
          → holds cm'.nodes k d ≡ false)
      × ((k d : Str) → mem d chunk_ids ≡ false → holds cm'.nodes k d ≡ holds cm.nodes k d)
unfolding remove_chunks
remove_chunks_lem chunk_ids cm v =
    let all = remove_all-Removed chunk_ids [] cm v in (all.0, all.2, all.1)
