-- ===== src/ChunkManager/Invariant/Entry.antt =====
-- A node that enters the registry.
use sentinel_fs.Prelude.{
  ℕ, ◌+◌, ◌≡◌, refl, sym, ap, ◌∙◌, inl, inr, Str, Map, none, [], Option-cases, lookup, put, length,
  Distinct, lookup-put_cases, length-put_new, keys-put-Distinct, arith, Int64, subst,
}
use sentinel_fs.ChunkManager.State.{DataNodeInfo, ChunkManager}
use sentinel_fs.ChunkManager.Nodes.{find_address, node_name, fresh_node, register_node}
use sentinel_fs.ChunkManager.Invariant.Registry.{NodesInv, SameNodes-NodesInv, modify-SameNodes}
use sentinel_fs.ChunkManager.Invariant.Register.{find_address-none, node_name-fresh}

module _ (nodes : Map DataNodeInfo) (v : NodesInv nodes) (k : Str) (n : DataNodeInfo)
    (name : k ≡ node_name (length nodes + 1)) (id : n.node_id ≡ k) (no_chunks : n.chunks ≡ [])
    (new_address : find_address n.address nodes ≡ none) where
  absent : lookup k nodes ≡ none
  absent = rw name (node_name-fresh v)

  put-NodesInv : NodesInv (put k n nodes)
  put-NodesInv = record {
    keys_distinct = keys-put-Distinct k n nodes v.keys_distinct;
    id_is_key = λ j m e. elim (lookup-put_cases k n nodes j m e) [
      | inl (at, is) ↦ ap (λ x. x.node_id) (sym is) ∙ id ∙ at
      | inr (_, old) ↦ v.id_is_key j m old
    ];
    chunks_distinct = λ j m e. elim (lookup-put_cases k n nodes j m e) [
      | inl (at, is) ↦ subst (λ x. Distinct x.chunks) is (rw no_chunks tt)
      | inr (_, old) ↦ v.chunks_distinct j m old
    ];
    named = λ j m e. elim (lookup-put_cases k n nodes j m e) [
      | inl (at, is) ↦
          (length nodes + 1, sym at ∙ name, omega (arith, length-put_new k n nodes absent))
      | inr (_, old) ↦
          let (i, called, below) = v.named j m old in
          (i, called, omega (arith, length-put_new k n nodes absent))
    ];
    one_address = λ i j m l e f same. elim (lookup-put_cases k n nodes i m e) [
      | inl (at, is) ↦ elim (lookup-put_cases k n nodes j l f) [
        | inl (at', is') ↦ sym at ∙ at'
        | inr (_, old) ↦ absurd (
            find_address-none n.address nodes j l new_address old
              (sym same ∙ ap (λ x. x.address) (sym is)))
      ]
      | inr (_, old) ↦ elim (lookup-put_cases k n nodes j l f) [
        | inl (at, is) ↦ absurd (
            find_address-none n.address nodes i m new_address old
              (same ∙ ap (λ x. x.address) (sym is)))
        | inr (_, old') ↦ v.one_address i j m l old old' same
      ]
    ];
  }

-- A registration, new or repeated, keeps the registry well formed.
pub register_node-NodesInv :
    (address : Str) (capacity : Int64) (now : ℕ) (cm : ChunkManager)
    → NodesInv cm.nodes
    → NodesInv (register_node address capacity now cm).1.nodes
unfolding register_node
register_node-NodesInv address capacity now cm v =
    elim (Option-cases (find_address address cm.nodes)) [
      | inl new ↦
          rw (new, register_node)
            (put-NodesInv cm.nodes v (node_name (length cm.nodes + 1))
              (fresh_node _ address capacity now) refl refl refl new)
      | inr (kn, known) ↦
          rw (known, register_node)
            (SameNodes-NodesInv
              (modify-SameNodes kn.0 _ cm.nodes
                (λ m. record { same_id = refl; same_address = refl; still_distinct = λ d. d }))
              v)
    ]
