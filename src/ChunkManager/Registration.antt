-- ===== src/ChunkManager/Registration.antt =====
-- What `RegisterNode` promises a data node that starts, or starts again.
use sentinel_fs.Prelude.{
  ℕ, ◌+◌, ◌≡◌, refl, sym, ◌∙◌, inl, inr, Str, none, some, false, [], ◌==◌, eq_iff, eq_refl,
  if◌then◌else◌, Option-cases, lookup, keys, length, Int64, arith, lookup-put, lookup-modify,
  keys-modify,
}
use sentinel_fs.Config.{healthy}
use sentinel_fs.ChunkManager.State.{DataNodeInfo, ChunkManager}
use sentinel_fs.ChunkManager.Nodes.{find_address, node_name, fresh_node, register_node}
use sentinel_fs.ChunkManager.Invariant.Registry.{NodesInv}
use sentinel_fs.ChunkManager.Invariant.Register.{
  find_address-some, find_address-none, node_name-fresh,
}

-- In a well-formed registry, registering an address that no node has: the id returned was not in
-- use, it now stands for a node at that address with that id and capacity, which is healthy with risk
-- 0, was last heard of now, and has no chunks and no bytes used; and every other id and all chunk
-- records are as before.
pub register_node_new :
    (address : Str) (capacity : Int64) (now : ℕ) (cm : ChunkManager)
    → NodesInv cm.nodes
    → find_address address cm.nodes ≡ none
    → let r = register_node address capacity now cm in
      (lookup r.0 cm.nodes ≡ none)
      × (lookup r.0 r.1.nodes
          ≡ some (record {
            node_id = r.0;
            address = address;
            capacity_bytes = capacity;
            used_bytes = 0;
            chunk_count = 0;
            status = healthy;
            risk_score = 0;
            last_heartbeat = now;
            chunks = [];
          }))
      × ((j : Str) → (r.0 == j) ≡ false → lookup j r.1.nodes ≡ lookup j cm.nodes)
      × (r.1.chunks ≡ cm.chunks)
unfolding register_node fresh_node
register_node_new address capacity now cm v new =
    rw (new, register_node)
      (
        node_name-fresh v,
        ground (arith, lookup-put id id n cm.nodes, eq_refl id),
        (λ j ne. ground (arith, lookup-put id j n cm.nodes)),
        refl,
      )
  where
    id : Str
    id = node_name (length cm.nodes + 1)

    n : DataNodeInfo
    n = fresh_node id address capacity now

-- In a well-formed registry, registering the address of node `k` again: the id returned is `k`
-- whatever the order of the map, no id comes or goes, and of node `k` only the time of its last
-- heartbeat changes; its capacity, its chunks and its status, dead or not, stay.
pub register_node_again :
    (address : Str) (capacity : Int64) (now : ℕ) (cm : ChunkManager) (k : Str) (n : DataNodeInfo)
    → NodesInv cm.nodes
    → lookup k cm.nodes ≡ some n
    → n.address ≡ address
    → let r = register_node address capacity now cm in
      (r.0 ≡ k)
      × (keys r.1.nodes ≡ keys cm.nodes)
      × ((j : Str)
          → lookup j r.1.nodes
            ≡ (if k == j then some (record n { last_heartbeat = now }) else lookup j cm.nodes))
      × (r.1.chunks ≡ cm.chunks)
unfolding register_node
register_node_again address capacity now cm k n v found here =
    elim (Option-cases (find_address address cm.nodes)) [
      | inl out ↦ absurd (find_address-none address cm.nodes k n out found here)
      | inr (hit, e) ↦
          let (found', here') = find_address-some address cm.nodes hit.0 hit.1 v.keys_distinct e in
          let is : hit.0 ≡ k = v.one_address hit.0 k hit.1 n found' found (here' ∙ sym here) in
          rw (e, register_node)
            (
              v.id_is_key hit.0 hit.1 found' ∙ is,
              keys-modify hit.0 _ cm.nodes,
              (λ j. ground (
                arith,
                lookup-modify hit.0 j (λ m. record m { last_heartbeat = now }) cm.nodes,
                eq_iff k j,
              )),
              refl,
            )
    ]
