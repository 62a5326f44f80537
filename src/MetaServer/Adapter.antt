-- ===== src/MetaServer/Adapter.antt =====
-- internal/metaserver/locator_adapter.go: the chunk manager as the migrator sees it.
use sentinel_fs.Prelude.{
  List, [], ◌∷◌, true, false, none, some, Str, mem, if◌then◌else◌, ◌≡◌, refl, sym, subst, All, Map,
  lookup, keys, values, Distinct, eq_iff, eq_refl, arith, lookup-mem-false, inl, inr, Bool-cases,
}
use sentinel_fs.Health.Locator.{NodeTarget, ChunkLocator}
use sentinel_fs.ChunkManager.Invariant.Registry.{NodesInv}
use sentinel_fs.ChunkManager.State.{DataNodeInfo, ChunkManager}
use sentinel_fs.ChunkManager.Nodes
use sentinel_fs.ChunkManager.Nodes.{get_node, get_all_nodes, receives_chunks}
use sentinel_fs.ChunkManager.Locations
use sentinel_fs.ChunkManager.Replicas

-- The loop of `GetHealthyNodeAddresses`.
unfoldable pub targets_among : List Str → List DataNodeInfo → List NodeTarget
targets_among excluded [] = []
targets_among excluded (n ∷ ns) =
    let rest = targets_among excluded ns in
    if mem n.node_id excluded
    then rest
    else if receives_chunks n.status
    then record { node_id = n.node_id; address = n.address } ∷ rest
    else rest

unfoldable pub chunk_manager_adapter : ChunkLocator ChunkManager
unfolding targets_among
chunk_manager_adapter = record {
  get_chunks_on_node = Nodes.get_chunks_on_node;
  get_chunk_meta = λ cm chunk_id. elim (Locations.get_chunk_meta cm chunk_id) [
    | none ↦ none
    | some m ↦ some m.node_ids
  ];
  get_healthy_node_addresses = λ cm excluded. targets_among excluded (get_all_nodes cm);
  add_chunk_to_node = Replicas.add_chunk_to_node;
  remove_chunk_from_node = Replicas.remove_chunk_from_node;
  get_node_address =
      λ cm node_id. elim (get_node cm node_id) [ none ↦ none | some n ↦ some n.address ];
}

-- A node that a migration may copy chunks to.
pub record IsTarget (cm : ChunkManager) (excluded : List Str) (t : NodeTarget) : Type 0 where
  pub node : DataNodeInfo
  pub registered : lookup t.node_id cm.nodes ≡ some node
  pub its_address : node.address ≡ t.address
  pub not_excluded : mem t.node_id excluded ≡ false
  pub receives : receives_chunks node.status ≡ true

targets_among-IsTarget :
    (excluded : List Str) (cm : ChunkManager) (m : Map DataNodeInfo)
    → Distinct (keys m)
    → NodesInv cm.nodes
    → ((k : Str) (n : DataNodeInfo) → lookup k m ≡ some n → lookup k cm.nodes ≡ some n)
    → All (IsTarget cm excluded) (targets_among excluded (values m))
unfolding targets_among lookup
targets_among-IsTarget excluded cm [] d v sub = tt
targets_among-IsTarget excluded cm ((k, n) ∷ rest) d v sub =
    let others = targets_among-IsTarget excluded cm rest d.1 v still in
    elim (Bool-cases (mem n.node_id excluded)) [
      | inl out ↦ rw (out, targets_among) others
      | inr kept ↦ elim (Bool-cases (receives_chunks n.status)) [
        | inl good ↦
            rw (kept, good, targets_among)
              (
                record {
                  node = n;
                  registered =
                      subst (λ i. lookup i cm.nodes ≡ some n) (sym (v.id_is_key k n here)) here;
                  its_address = refl;
                  not_excluded = kept;
                  receives = good;
                },
                others,
              )
        | inr bad ↦ rw (kept, bad, targets_among) others
      ]
    ]
  where
    here : lookup k cm.nodes ≡ some n
    here = sub k n (ground (arith, eq_refl k))

    still : (j : Str) (x : DataNodeInfo) → lookup j rest ≡ some x → lookup j cm.nodes ≡ some x
    still j x e = sub j x (ground (arith, eq_iff k j, lookup-mem-false k rest))

-- In a well-formed registry, every target that the adapter offers for a migration is a registered
-- node, given with its registered address, that is not excluded and whose status is healthy or
-- warning.
pub chunk_manager_adapter-IsTarget :
    (cm : ChunkManager) (excluded : List Str)
    → NodesInv cm.nodes
    → All (IsTarget cm excluded) (chunk_manager_adapter.get_healthy_node_addresses cm excluded)
unfolding chunk_manager_adapter get_all_nodes
chunk_manager_adapter-IsTarget cm excluded v =
    targets_among-IsTarget excluded cm cm.nodes v.keys_distinct v (λ k n e. e)
