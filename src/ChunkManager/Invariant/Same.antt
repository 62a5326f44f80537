-- ===== src/ChunkManager/Invariant/Same.antt =====
-- A heartbeat and a removal leave every node the node that it was.
use sentinel_fs.Prelude.{
  ℕ, refl, inl, inr, Str, Map, List, [], ◌∷◌, Bool-cases, Option-cases, lookup, modify, Int64,
  erase-Distinct,
}
use sentinel_fs.ChunkManager.State.{DataNodeInfo, ChunkManager}
use sentinel_fs.ChunkManager.Nodes.{beat, is_dead}
use sentinel_fs.ChunkManager.Replicas.{forget, forget_on, remove_chunk, remove_all}
use sentinel_fs.ChunkManager.Invariant.Registry.{
  SameNode, SameNodes, SameNodes-refl, SameNodes-trans, modify-SameNodes,
}

pub beat-SameNode :
    (used : Int64) (count now : ℕ) (n : DataNodeInfo) → SameNode n (beat used count now n)
unfolding beat
beat-SameNode used count now n = elim (Bool-cases (is_dead n.status)) [
  | inl e ↦ rw e (record { same_id = refl; same_address = refl; still_distinct = λ d. d })
  | inr e ↦ rw e (record { same_id = refl; same_address = refl; still_distinct = λ d. d })
]

pub forget-SameNodes :
    (c k : Str) (nodes : Map DataNodeInfo) → SameNodes nodes (modify k (forget c) nodes)
forget-SameNodes c k nodes = modify-SameNodes k (forget c) nodes (λ n.
    unfold forget in
    record { same_id = refl; same_address = refl; still_distinct = erase-Distinct c n.chunks })

forget_on-SameNodes :
    (c : Str) (ids addrs : List Str) (nodes : Map DataNodeInfo)
    → SameNodes nodes (forget_on c ids addrs nodes).1
unfolding forget_on
forget_on-SameNodes c [] addrs nodes = SameNodes-refl nodes
forget_on-SameNodes c (k ∷ ids) addrs nodes =
    SameNodes-trans (forget-SameNodes c k nodes)
      (forget_on-SameNodes c ids _ (modify k (forget c) nodes))

pub remove_chunk-SameNodes :
    (c : Str) (addrs : List Str) (cm : ChunkManager)
    → SameNodes cm.nodes (remove_chunk c addrs cm).1.nodes
unfolding remove_chunk
remove_chunk-SameNodes c addrs cm = elim (Option-cases (lookup c cm.chunks)) [
  | inl out ↦ rw (out, remove_chunk) (SameNodes-refl cm.nodes)
  | inr (m, found) ↦ rw (found, remove_chunk) (forget_on-SameNodes c m.node_ids addrs cm.nodes)
]

pub remove_all-SameNodes :
    (cids addrs : List Str) (cm : ChunkManager)
    → SameNodes cm.nodes (remove_all cids addrs cm).1.nodes
unfolding remove_all
remove_all-SameNodes [] addrs cm = SameNodes-refl cm.nodes
remove_all-SameNodes (c ∷ cids) addrs cm =
    let r = remove_chunk c addrs cm in
    SameNodes-trans (remove_chunk-SameNodes c addrs cm) (remove_all-SameNodes cids r.0 r.1)
