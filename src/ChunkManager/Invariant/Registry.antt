-- ===== src/ChunkManager/Invariant/Registry.antt =====
-- The node registry: every node stands under its own id, ids are `node-1` to `node-n`, and no two
-- nodes share an address.
use sentinel_fs.Prelude.{
  ℕ, ◌≤◌, ◌≡◌, refl, sym, ◌∙◌, inl, inr, Str, Map, some, subst, ◌==◌, Bool-cases, Option-cases,
  lookup, modify, keys, length, Distinct, lookup-modify, keys-modify, length-modify, arith,
}
use sentinel_fs.ChunkManager.State.{DataNodeInfo}
use sentinel_fs.ChunkManager.Nodes.{node_name}

-- The name of some node that was registered as one of the first `n`.
abbrev pub NamedBelow : Str → ℕ → Type 0
NamedBelow k n = (i : ℕ) × (k ≡ node_name i) × (i ≤ n)

pub record NodesInv (nodes : Map DataNodeInfo) : Type 0 where
  pub keys_distinct : Distinct (keys nodes)
  pub id_is_key : (k : Str) (n : DataNodeInfo) → lookup k nodes ≡ some n → n.node_id ≡ k
  pub chunks_distinct : (k : Str) (n : DataNodeInfo) → lookup k nodes ≡ some n → Distinct n.chunks
  pub named : (k : Str) (n : DataNodeInfo) → lookup k nodes ≡ some n → NamedBelow k (length nodes)
  pub one_address :
      (j k : Str) (m n : DataNodeInfo)
      → lookup j nodes ≡ some m
      → lookup k nodes ≡ some n
      → m.address ≡ n.address
      → j ≡ k

-- What every operation but a registration does to a node: it stays the node that it was.
pub record SameNode (n n' : DataNodeInfo) : Type 0 where
  pub same_id : n'.node_id ≡ n.node_id
  pub same_address : n'.address ≡ n.address
  pub still_distinct : Distinct n.chunks → Distinct n'.chunks

pub record SameNodes (nodes nodes' : Map DataNodeInfo) : Type 0 where
  pub same_keys : keys nodes' ≡ keys nodes
  pub same_length : length nodes' ≡ length nodes
  pub comes_from :
      (k : Str) (n' : DataNodeInfo)
      → lookup k nodes' ≡ some n'
      → (n : DataNodeInfo) × (lookup k nodes ≡ some n) × SameNode n n'

pub SameNode-refl : (n : DataNodeInfo) → SameNode n n
SameNode-refl n = record { same_id = refl; same_address = refl; still_distinct = λ d. d }

pub SameNodes-refl : (nodes : Map DataNodeInfo) → SameNodes nodes nodes
SameNodes-refl nodes = record {
  same_keys = refl;
  same_length = refl;
  comes_from = λ k n e. (n, e, SameNode-refl n);
}

pub SameNodes-trans : {a b c : Map DataNodeInfo} → SameNodes a b → SameNodes b c → SameNodes a c
SameNodes-trans {a} {b} {c} p q = record {
  same_keys = q.same_keys ∙ p.same_keys;
  same_length = q.same_length ∙ p.same_length;
  comes_from = λ k n'' e.
      let (n', e', s') = q.comes_from k n'' e in
      let (n, e0, s) = p.comes_from k n' e' in
      (
        n,
        e0,
        record {
          same_id = s'.same_id ∙ s.same_id;
          same_address = s'.same_address ∙ s.same_address;
          still_distinct = λ d. s'.still_distinct (s.still_distinct d);
        },
      );
}

module _ {nodes nodes' : Map DataNodeInfo} (s : SameNodes nodes nodes') (v : NodesInv nodes) where
  pub SameNodes-NodesInv : NodesInv nodes'
  SameNodes-NodesInv = record {
    keys_distinct = rw s.same_keys v.keys_distinct;
    id_is_key = λ k n' e. let (n, e0, t) = s.comes_from k n' e in t.same_id ∙ v.id_is_key k n e0;
    chunks_distinct = λ k n' e.
        let (n, e0, t) = s.comes_from k n' e in t.still_distinct (v.chunks_distinct k n e0);
    named = λ k n' e.
        let (n, e0, t) = s.comes_from k n' e in
        let (i, name, below) = v.named k n e0 in (i, name, rw s.same_length below);
    one_address = λ j k m' n' e f same.
        let (m, e0, t) = s.comes_from j m' e in
        let (n, f0, u) = s.comes_from k n' f in
        v.one_address j k m n e0 f0 (sym t.same_address ∙ same ∙ u.same_address);
  }

-- A write through a pointer.
pub modify-SameNodes :
    (k : Str) (f : DataNodeInfo → DataNodeInfo) (nodes : Map DataNodeInfo)
    → ((n : DataNodeInfo) → SameNode n (f n))
    → SameNodes nodes (modify k f nodes)
modify-SameNodes k f nodes keep = record {
  same_keys = keys-modify k f nodes;
  same_length = length-modify k f nodes;
  comes_from = from;
}
  where
    from :
        (j : Str) (n' : DataNodeInfo)
        → lookup j (modify k f nodes) ≡ some n'
        → (n : DataNodeInfo) × (lookup j nodes ≡ some n) × SameNode n n'
    from j n' e = elim (Option-cases (lookup j nodes)) [
      | inl out ↦ absurd (ground (arith, lookup-modify k j f nodes))
      | inr (n, found) ↦ elim (Bool-cases (k == j)) [
        | inl hit ↦
            let e' : f n ≡ n' = ground (arith, lookup-modify k j f nodes) in
            (n, found, subst (SameNode n) e' (keep n))
        | inr miss ↦
            let e' : n ≡ n' = ground (arith, lookup-modify k j f nodes) in
            (n, found, subst (SameNode n) e' (SameNode-refl n))
      ]
    ]
