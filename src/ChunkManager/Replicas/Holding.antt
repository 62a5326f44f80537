-- ===== src/ChunkManager/Replicas/Holding.antt =====
-- What every node holds after one node takes or forgets a chunk.
use sentinel_fs.Prelude.{
  ◌≡◌, inl, inr, Str, Map, some, false, ◌||◌, ◌&&◌, ◌==◌, eq_iff, if◌then◌else◌, Option-cases,
  lookup, modify, Distinct, mem-insert, mem-erase, lookup-modify, arith,
}
use sentinel_fs.ChunkManager.State.{DataNodeInfo}
use sentinel_fs.ChunkManager.Replicas.{hold, forget}
use sentinel_fs.ChunkManager.Invariant.Held.{holds}

pub holds-hold_iff :
    (nodes : Map DataNodeInfo) (to c : Str) (n : DataNodeInfo) (k d : Str)
    → lookup to nodes ≡ some n
    → holds (modify to (hold c) nodes) k d ≡ ((c == d && to == k) || holds nodes k d)
unfolding holds hold
holds-hold_iff nodes to c n k d at = elim (Option-cases (lookup k nodes)) [
  | inl out ↦ ground (arith, lookup-modify to k (hold c) nodes, eq_iff to k)
  | inr (m, found) ↦
      ground (arith, lookup-modify to k (hold c) nodes, eq_iff to k, mem-insert d c m.chunks)
]

pub holds-forget_iff :
    (nodes : Map DataNodeInfo) (from c k d : Str)
    → ((n : DataNodeInfo) → lookup k nodes ≡ some n → Distinct n.chunks)
    → holds (modify from (forget c) nodes) k d
      ≡ (if c == d && from == k then false else holds nodes k d)
unfolding holds forget
holds-forget_iff nodes from c k d distinct = elim (Option-cases (lookup k nodes)) [
  | inl out ↦ ground (arith, lookup-modify from k (forget c) nodes)
  | inr (m, found) ↦
      ground
        (arith, lookup-modify from k (forget c) nodes, mem-erase d c m.chunks (distinct m found))
]
