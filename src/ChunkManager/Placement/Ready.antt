-- ===== src/ChunkManager/Placement/Ready.antt =====
-- When `healthyNodes` finds a node.
use sentinel_fs.Prelude.{
  ℕ, ◌-◌, ◌<◌, ◌≡◌, ◌≢◌, ◌↔◌, ◌⊎◌, refl, inl, inr, [], ◌∷◌, Str, Map, true, ◌==◌, Bool-cases, some,
  lookup, keys, Distinct, lookup-mem-true, eq_iff, eq_refl, arith,
}
use sentinel_fs.Config.{NodeStatus, healthy, warning, at_risk, critical, dead, dead_node_timeout}
use sentinel_fs.ChunkManager.State.{DataNodeInfo}
use sentinel_fs.ChunkManager.Nodes.{healthy_nodes, can_receive}

-- Its status is healthy or warning, and it was heard of within the timeout.
abbrev pub Ready : ℕ → DataNodeInfo → Type 0
Ready now n =
    ((n.status ≡ healthy) ⊎ (n.status ≡ warning)) × (now - n.last_heartbeat < dead_node_timeout)

-- A node of that kind is registered.
abbrev pub HasReady : ℕ → Map DataNodeInfo → Type 0
HasReady now nodes = (k : Str) × (n : DataNodeInfo) × (lookup k nodes ≡ some n) × Ready now n

can_receive-Ready : (now : ℕ) (n : DataNodeInfo) → can_receive now n ≡ true → Ready now n
unfolding can_receive
can_receive-Ready now n h = by_status n.status refl
  where
    by_status : (s : NodeStatus) → n.status ≡ s → Ready now n
    by_status healthy e = (inl e, ground (arith, e))
    by_status warning e = (inr e, ground (arith, e))
    by_status at_risk e = absurd (ground (arith, e))
    by_status critical e = absurd (ground (arith, e))
    by_status dead e = absurd (ground (arith, e))

Ready-can_receive : (now : ℕ) (n : DataNodeInfo) → Ready now n → can_receive now n ≡ true
unfolding can_receive
Ready-can_receive now n (inl e, fresh) = ground (arith, e)
Ready-can_receive now n (inr e, fresh) = ground (arith, e)

healthy_nodes-HasReady :
    (now : ℕ) (nodes : Map DataNodeInfo)
    → Distinct (keys nodes)
    → healthy_nodes now nodes ≢ []
    → HasReady now nodes
unfolding healthy_nodes lookup
healthy_nodes-HasReady now [] d h = absurd (h refl)
healthy_nodes-HasReady now ((k, n) ∷ nodes) d h = elim (Bool-cases (can_receive now n)) [
  | inl good ↦ (k, n, ground (arith, eq_refl k), can_receive-Ready now n good)
  | inr bad ↦
      let (j, m, found, ready) =
        healthy_nodes-HasReady now nodes d.1 (λ e. h (rw (bad, healthy_nodes) e)) in
      let listed = lookup-mem-true j nodes found in (j, m, ground (arith, eq_iff k j, d.0), ready)
]

HasReady-healthy_nodes :
    (now : ℕ) (nodes : Map DataNodeInfo) → HasReady now nodes → healthy_nodes now nodes ≢ []
unfolding healthy_nodes lookup
HasReady-healthy_nodes now [] (k, n, found, ready) e = absurd (cc found)
HasReady-healthy_nodes now ((j, m) ∷ nodes) (k, n, found, ready) e =
    elim (Bool-cases (can_receive now m)) [
      | inl good ↦ absurd (cc (rw (good, healthy_nodes) at e))
      | inr bad ↦ elim (Bool-cases (j == k)) [
        | inl hit ↦ let good = Ready-can_receive now n ready in absurd (cc)
        | inr miss ↦
            HasReady-healthy_nodes now nodes (k, n, rw (miss) at found, ready)
              (rw (bad, healthy_nodes) at e)
      ]
    ]

-- It finds one exactly if such a node is registered.
pub healthy_nodes_some :
    (now : ℕ) (nodes : Map DataNodeInfo)
    → Distinct (keys nodes)
    → (healthy_nodes now nodes ≢ []) ↔ HasReady now nodes
healthy_nodes_some now nodes d =
    (healthy_nodes-HasReady now nodes d, HasReady-healthy_nodes now nodes)
