-- ===== src/ChunkManager/Replicas/Migration.antt =====
-- The two record changes of a migration, one after the other, as the migrator makes them.
use sentinel_fs.Prelude.{
  ◌+◌, ◌≡◌, refl, Str, Map, some, true, false, ◌||◌, List, [], ◌∷◌, ◌==◌, eq_refl, if◌then◌else◌,
  lookup, modify, insert, erase, mem, length, length-append, Distinct, insert-Distinct, mem-insert,
  mem-erase, length-erase, lookup-modify, arith,
}
use sentinel_fs.ChunkManager.State.{DataNodeInfo, ChunkMeta, ChunkManager}
use sentinel_fs.ChunkManager.Replicas.{
  hold, list_node, unlist_node, add_chunk_to_node, remove_chunk_from_node,
}
use sentinel_fs.ChunkManager.Invariant.Held.{holds}
use sentinel_fs.ChunkManager.Invariant.Registry.{SameNodes, SameNodes-NodesInv, modify-SameNodes}
use sentinel_fs.ChunkManager.Invariant.Placing.{hold-SameNode}
use sentinel_fs.ChunkManager.Replicas.Holding.{holds-hold_iff, holds-forget_iff}
use sentinel_fs.ChunkManager.Invariant.Steps.{Inv}

-- AddChunkToNode(chunkID, target), then RemoveChunkFromNode(chunkID, source).
abbrev pub moved : Str → Str → Str → ChunkManager → ChunkManager
moved c from to cm = remove_chunk_from_node c from (add_chunk_to_node c to cm)

length-insert_new :
    (s : Str) (xs : List Str) → mem s xs ≡ false → length (insert s xs) ≡ length xs + 1
unfolding insert
length-insert_new s xs h = ground (arith, length-append xs (s ∷ []))

length-moved :
    (from to : Str) (ids : List Str)
    → mem from ids ≡ true
    → mem to ids ≡ false
    → length (erase from (insert to ids)) ≡ length ids
length-moved from to ids here new =
    ground
      (arith, length-insert_new to ids, length-erase from (insert to ids), mem-insert from to ids)

mem-moved :
    (from to k : Str) (ids : List Str)
    → Distinct ids
    → mem k (erase from (insert to ids)) ≡ (if from == k then false else (to == k || mem k ids))
mem-moved from to k ids d =
    ground (arith, mem-erase k from (insert to ids) (insert-Distinct ids to d), mem-insert k to ids)

-- In a well-formed state, moving chunk `c` from a node that its record lists to a registered one that
-- it does not list: the record keeps its number of replicas, lists the target in place of the source
-- and is else unchanged, as is every other record; the target holds the chunk, the source no longer
-- does, and of other nodes and other chunks what is held stays.
pub moved_replicas :
    (c from to : Str) (cm : ChunkManager) (m : ChunkMeta) (n : DataNodeInfo)
    → Inv cm
    → lookup c cm.chunks ≡ some m
    → mem from m.node_ids ≡ true
    → mem to m.node_ids ≡ false
    → lookup to cm.nodes ≡ some n
    → let cm' = moved c from to cm in
      ((m' : ChunkMeta) × (lookup c cm'.chunks ≡ some m')
        × (m' ≡ record m { node_ids = m'.node_ids })
        × (length m'.node_ids ≡ length m.node_ids)
        × ((k : Str)
            → mem k m'.node_ids ≡ (if from == k then false else (to == k || mem k m.node_ids))))
      × ((d : Str) → (c == d) ≡ false → lookup d cm'.chunks ≡ lookup d cm.chunks)
      × ((k d : Str)
          → holds cm'.nodes k d ≡ (
              if c == d
              then if from == k then false else (to == k || holds cm.nodes k d)
              else holds cm.nodes k d))
unfolding remove_chunk_from_node add_chunk_to_node
moved_replicas c from to cm m n v found here new at = (
  (
    record m { node_ids = erase from (insert to m.node_ids) },
    ground (
      arith,
      lookup-modify c c (list_node to) cm.chunks,
      eq_refl c,
      lookup-modify c c (unlist_node from) (modify c (list_node to) cm.chunks),
    ),
    refl,
    length-moved from to m.node_ids here new,
    λ k. mem-moved from to k m.node_ids (v.records.nodes_distinct c m found),
  ),
  (λ d ne. ground (
    arith,
    lookup-modify c d (list_node to) cm.chunks,
    lookup-modify c d (unlist_node from) (modify c (list_node to) cm.chunks),
  )),
  held,
)
  where
    taken : Map DataNodeInfo
    taken = modify to (hold c) cm.nodes

    same : SameNodes cm.nodes taken
    same = modify-SameNodes to (hold c) cm.nodes (hold-SameNode c)

    held :
        (k d : Str)
        → holds (moved c from to cm).nodes k d ≡ (
            if c == d
            then if from == k then false else (to == k || holds cm.nodes k d)
            else holds cm.nodes k d)
    held k d = ground (
      arith,
      holds-forget_iff taken from c k d
          (λ x e. (SameNodes-NodesInv same v.registry).chunks_distinct k x e),
      holds-hold_iff cm.nodes to c n k d at,
    )
