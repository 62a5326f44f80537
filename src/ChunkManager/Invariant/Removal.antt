-- ===== src/ChunkManager/Invariant/Removal.antt =====
-- Removing replicas and chunks keeps the chunk records true of the nodes.
use sentinel_fs.Prelude.{
  ◌≡◌, refl, ◌∙◌, inl, inr, Str, Map, none, some, true, false, List, [], ◌∷◌, ◌==◌, eq_iff, eq_refl,
  Bool-cases, Option-cases, lookup, modify, delete, erase, subst, mem, mem-erase_ne, mem-erase,
  erase-mem-false, erase-Distinct, lookup-delete, keys-delete-Distinct, arith,
}
use sentinel_fs.ChunkManager.State.{DataNodeInfo, ChunkMeta, ChunkManager}
use sentinel_fs.ChunkManager.Replicas.{
  forget, forget_on, remove_chunk, remove_all, unlist_node, remove_chunk_from_node,
}
use sentinel_fs.ChunkManager.Invariant.Held.{
  ChunksInv, holds-modify, holds-modify_ne, ChunksInv-meta, lookup-modify_cases,
}

forget-keeps :
    (d c : Str) (n : DataNodeInfo)
    → (d == c) ≡ false
    → mem c n.chunks ≡ true
    → mem c (forget d n).chunks ≡ true
unfolding forget
forget-keeps d c n ne h = rw (mem-erase_ne c d n.chunks ne) h

-- A node may forget a chunk that does not list it.
forget-ChunksInv :
    {nodes : Map DataNodeInfo} {chunks : Map ChunkMeta} (c k : Str)
    → ((m : ChunkMeta) → lookup c chunks ≡ some m → mem k m.node_ids ≡ false)
    → ChunksInv nodes chunks
    → ChunksInv (modify k (forget c) nodes) chunks
forget-ChunksInv {nodes} {chunks} c k unlisted v = record {
  chunk_keys = v.chunk_keys;
  id_of_meta = v.id_of_meta;
  nodes_distinct = v.nodes_distinct;
  held = λ d m j e h. elim (Bool-cases (c == d)) [
    | inr other ↦
        holds-modify nodes k (forget c) j d (λ n t. forget-keeps c d n other t) (v.held d m j e h)
    | inl same ↦
        let is : c ≡ d = (eq_iff c d).0 same in
        let free : mem k m.node_ids ≡ false = unlisted m (rw is e) in
        let apart : (k == j) ≡ false = ground (arith, eq_iff k j) in
        holds-modify_ne nodes k (forget c) j d apart ∙ v.held d m j e h
  ];
}

mem-of_erase : (j k : Str) (xs : List Str) → mem j (erase k xs) ≡ true → mem j xs ≡ true
mem-of_erase j k xs h = elim (Bool-cases (mem j xs)) [
  | inl e ↦ e
  | inr e ↦ cc (erase-mem-false j k xs e)
]

pub remove_chunk_from_node-ChunksInv :
    (c k : Str) (cm : ChunkManager)
    → ChunksInv cm.nodes cm.chunks
    → let cm' = remove_chunk_from_node c k cm in ChunksInv cm'.nodes cm'.chunks
unfolding remove_chunk_from_node unlist_node
remove_chunk_from_node-ChunksInv c k cm v = forget-ChunksInv c k gone unlisted
  where
    unlisted : ChunksInv cm.nodes (modify c (unlist_node k) cm.chunks)
    unlisted =
        ChunksInv-meta c (unlist_node k) (λ m. refl) (λ m d. erase-Distinct k m.node_ids d)
          (λ m j e h. v.held c m j e (mem-of_erase j k m.node_ids h)) v

    gone :
        (m : ChunkMeta)
        → lookup c (modify c (unlist_node k) cm.chunks) ≡ some m
        → mem k m.node_ids ≡ false
    gone m e = elim (lookup-modify_cases c (unlist_node k) cm.chunks c m e) [
      | inr (miss, _) ↦ cc (miss, eq_refl c)
      | inl (_, (m0, found, is)) ↦
          subst (λ x. mem k x.node_ids ≡ false) is
            (ground (arith, mem-erase k k m0.node_ids (v.nodes_distinct c m0 found), eq_refl k))
    ]

delete-ChunksInv :
    {nodes : Map DataNodeInfo} {chunks : Map ChunkMeta} (c : Str)
    → ChunksInv nodes chunks
    → ChunksInv nodes (delete c chunks)
delete-ChunksInv {nodes} {chunks} c v = record {
  chunk_keys = keys-delete-Distinct c chunks v.chunk_keys;
  id_of_meta = λ d m e. v.id_of_meta d m (before d m e);
  nodes_distinct = λ d m e. v.nodes_distinct d m (before d m e);
  held = λ d m j e h. v.held d m j (before d m e) h;
}
  where
    before :
        (d : Str) (m : ChunkMeta) → lookup d (delete c chunks) ≡ some m → lookup d chunks ≡ some m
    before d m e = ground (arith, lookup-delete c d chunks v.chunk_keys)

-- All listed nodes forget a chunk that has no record any more.
forget_on-ChunksInv :
    (c : Str) (ids addrs : List Str) (nodes : Map DataNodeInfo) {chunks : Map ChunkMeta}
    → lookup c chunks ≡ none
    → ChunksInv nodes chunks
    → ChunksInv (forget_on c ids addrs nodes).1 chunks
unfolding forget_on
forget_on-ChunksInv c [] addrs nodes gone v = v
forget_on-ChunksInv c (k ∷ ids) addrs nodes gone v =
    forget_on-ChunksInv c ids _ (modify k (forget c) nodes) gone
      (forget-ChunksInv c k (λ m e. cc) v)

pub remove_chunk-ChunksInv :
    (c : Str) (addrs : List Str) (cm : ChunkManager)
    → ChunksInv cm.nodes cm.chunks
    → let cm' = (remove_chunk c addrs cm).1 in ChunksInv cm'.nodes cm'.chunks
unfolding remove_chunk
remove_chunk-ChunksInv c addrs cm v = elim (Option-cases (lookup c cm.chunks)) [
  | inl out ↦ rw (out, remove_chunk) v
  | inr (m, found) ↦
      rw (found, remove_chunk)
        (forget_on-ChunksInv c m.node_ids addrs cm.nodes deleted (delete-ChunksInv c v))
]
  where
    deleted : lookup c (delete c cm.chunks) ≡ none
    deleted = ground (arith, lookup-delete c c cm.chunks v.chunk_keys, eq_refl c)

pub remove_all-ChunksInv :
    (cids addrs : List Str) (cm : ChunkManager)
    → ChunksInv cm.nodes cm.chunks
    → let cm' = (remove_all cids addrs cm).1 in ChunksInv cm'.nodes cm'.chunks
unfolding remove_all
remove_all-ChunksInv [] addrs cm v = v
remove_all-ChunksInv (c ∷ cids) addrs cm v =
    let r = remove_chunk c addrs cm in
    remove_all-ChunksInv cids r.0 r.1 (remove_chunk-ChunksInv c addrs cm v)
