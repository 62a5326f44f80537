-- ===== src/ChunkManager/Invariant/Held.antt =====
-- The chunk records against the nodes: a node that a chunk lists holds it.
use sentinel_fs.Prelude.{
  ◌≡◌, sym, ap, ◌∙◌, inl, inr, ◌⊎◌, Str, Map, none, some, Bool, true, false, ◌==◌, eq_iff,
  Bool-cases, Option-cases, lookup, modify, keys, Distinct, mem, lookup-modify, keys-modify, arith,
  subst,
}
use sentinel_fs.ChunkManager.State.{DataNodeInfo, ChunkMeta}

-- Node `k` is registered and holds chunk `c`.
unfoldable pub holds : Map DataNodeInfo → Str → Str → Bool
holds nodes k c = elim (lookup k nodes) [ none ↦ false | some n ↦ mem c n.chunks ]

pub record ChunksInv (nodes : Map DataNodeInfo) (chunks : Map ChunkMeta) : Type 0 where
  pub chunk_keys : Distinct (keys chunks)
  pub id_of_meta : (c : Str) (m : ChunkMeta) → lookup c chunks ≡ some m → m.chunk_id ≡ c
  pub nodes_distinct : (c : Str) (m : ChunkMeta) → lookup c chunks ≡ some m → Distinct m.node_ids
  pub held :
      (c : Str) (m : ChunkMeta) (k : Str)
      → lookup c chunks ≡ some m
      → mem k m.node_ids ≡ true
      → holds nodes k c ≡ true

-- A write to one node keeps what every node holds of `c`, if it keeps `c` there.
pub holds-modify :
    (nodes : Map DataNodeInfo) (k : Str) (f : DataNodeInfo → DataNodeInfo) (j c : Str)
    → ((n : DataNodeInfo) → mem c n.chunks ≡ true → mem c (f n).chunks ≡ true)
    → holds nodes j c ≡ true
    → holds (modify k f nodes) j c ≡ true
unfolding holds
holds-modify nodes k f j c keep h = elim (Option-cases (lookup j nodes)) [
  | inl out ↦ absurd (ground arith)
  | inr (n, found) ↦
      let kept : mem c (f n).chunks ≡ true = keep n (ground arith) in
      ground (arith, lookup-modify k j f nodes)
]

pub holds-modify_ne :
    (nodes : Map DataNodeInfo) (k : Str) (f : DataNodeInfo → DataNodeInfo) (j c : Str)
    → (k == j) ≡ false
    → holds (modify k f nodes) j c ≡ holds nodes j c
unfolding holds
holds-modify_ne nodes k f j c ne = ground (arith, lookup-modify k j f nodes)

-- A change of the nodes after which every node holds what it held.
pub ChunksInv-nodes :
    {nodes nodes' : Map DataNodeInfo} {chunks : Map ChunkMeta}
    → ((k c : Str) → holds nodes k c ≡ true → holds nodes' k c ≡ true)
    → ChunksInv nodes chunks
    → ChunksInv nodes' chunks
ChunksInv-nodes keep v = record {
  chunk_keys = v.chunk_keys;
  id_of_meta = v.id_of_meta;
  nodes_distinct = v.nodes_distinct;
  held = λ c m k e h. keep k c (v.held c m k e h);
}

-- What a lookup finds after a write to one key.
pub lookup-modify_cases :
    {V : Type 0} (k : Str) (f : V → V) (m : Map V) (j : Str) (w : V)
    → lookup j (modify k f m) ≡ some w
    → ((k ≡ j) × ((v : V) × (lookup j m ≡ some v) × (f v ≡ w)))
      ⊎ (((k == j) ≡ false) × (lookup j m ≡ some w))
lookup-modify_cases k f m j w h = elim (Bool-cases (k == j)) [
  | inr miss ↦ inr (miss, ground (arith, lookup-modify k j f m))
  | inl hit ↦ elim (Option-cases (lookup j m)) [
    | inl out ↦ absurd (ground (arith, lookup-modify k j f m))
    | inr (v, found) ↦ inl ((eq_iff k j).0 hit, (v, found, ground (arith, lookup-modify k j f m)))
  ]
]

-- A change of one chunk record that keeps its id and lists no node that does not hold the chunk.
pub ChunksInv-meta :
    {nodes : Map DataNodeInfo} {chunks : Map ChunkMeta} (k : Str) (f : ChunkMeta → ChunkMeta)
    → ((m : ChunkMeta) → (f m).chunk_id ≡ m.chunk_id)
    → ((m : ChunkMeta) → Distinct m.node_ids → Distinct (f m).node_ids)
    → ((m : ChunkMeta) (j : Str)
        → lookup k chunks ≡ some m
        → mem j (f m).node_ids ≡ true
        → holds nodes j k ≡ true)
    → ChunksInv nodes chunks
    → ChunksInv nodes (modify k f chunks)
ChunksInv-meta {nodes} {chunks} k f same_id distinct lists v = record {
  chunk_keys = rw keys-modify v.chunk_keys;
  id_of_meta = λ c m' e. elim (lookup-modify_cases k f chunks c m' e) [
    | inl (at, (m, found, is)) ↦ ap (λ x. x.chunk_id) (sym is) ∙ same_id m ∙ v.id_of_meta c m found
    | inr (_, old) ↦ v.id_of_meta c m' old
  ];
  nodes_distinct = λ c m' e. elim (lookup-modify_cases k f chunks c m' e) [
    | inl (at, (m, found, is)) ↦
        subst (λ x. Distinct x.node_ids) is (distinct m (v.nodes_distinct c m found))
    | inr (_, old) ↦ v.nodes_distinct c m' old
  ];
  held = λ c m' j e h. elim (lookup-modify_cases k f chunks c m' e) [
    | inl (at, (m, found, is)) ↦
        subst (λ x. holds nodes j x ≡ true) at
          (lists m j (rw at found) (subst (λ x. mem j x.node_ids ≡ true) (sym is) h))
    | inr (_, old) ↦ v.held c m' j old h
  ];
}
