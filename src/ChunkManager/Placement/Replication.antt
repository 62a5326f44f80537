-- ===== src/ChunkManager/Placement/Replication.antt =====
-- What `AllocateChunks` promises: how many replicas, on which nodes, for which chunks.
use sentinel_fs.Prelude.{
  ℕ, ◌+◌, ◌≡◌, refl, inl, inr, Str, Map, none, some, true, List, [], ◌∷◌, eq_iff, eq_refl,
  Option-cases, if◌then◌else◌, ltb, min, lookup, mem, keys, length, Distinct, All, map, length-take,
  arith, lookup_of_mem-keys, length-perm,
}
use sentinel_fs.Sorting.{sort_slice}
use sentinel_fs.Sorting.Order.{sort_slice-perm}
use sentinel_fs.Chunks.{generate_chunk_id}
use sentinel_fs.ChunkManager.State.{DataNodeInfo}
use sentinel_fs.ChunkManager.Nodes.{healthy_nodes, can_receive}
use sentinel_fs.ChunkManager.Placement.{
  Candidate, less, load, select_nodes, addresses_of, ChunkPlacementInfo,
}
use sentinel_fs.ChunkManager.Placement.Targets.{
  Registered, Shown, pointers, mem-healthy_nodes_false,
}
use sentinel_fs.ChunkManager.Invariant.Registry.{SameNodes}

-- A registered node is a candidate exactly if its status lets it receive chunks and its heartbeat is
-- recent.
pub healthy_nodes_lem :
    (now : ℕ) (nodes : Map DataNodeInfo) (k : Str) (n : DataNodeInfo)
    → Distinct (keys nodes)
    → lookup k nodes ≡ some n
    → mem k (healthy_nodes now nodes) ≡ can_receive now n
unfolding healthy_nodes lookup mem
healthy_nodes_lem now [] k n d e = cc
healthy_nodes_lem now ((j, m) ∷ nodes) k n d e = ground (
  arith,
  healthy_nodes_lem now nodes k n d.1,
  mem-healthy_nodes_false now j nodes d.0,
  eq_iff j k,
)

pub length-select_nodes :
    (cs : List Candidate) (count : ℕ) → length (select_nodes cs count) ≡ min count (length cs)
unfolding select_nodes
length-select_nodes cs count =
    let sorted = sort_slice less cs in
    let cut = if ltb (length sorted) count then length sorted else count in
    ground (arith, length-perm (sort_slice-perm less cs), length-take cut sorted)

-- The address under which node `k` is registered.
abbrev pub address_of : Map DataNodeInfo → Str → Str
address_of nodes k = elim (lookup k nodes) [ none ↦ [] | some n ↦ n.address ]

-- The placement of chunk `i`: on `count` distinct nodes out of `healthy`, at their addresses.
pub record IsPlacement (sha256 : List ℕ → List ℕ) (path : Str) (nodes : Map DataNodeInfo)
    (healthy : List Str) (count i : ℕ) (p : ChunkPlacementInfo) : Type 0 where
  pub index : p.chunk_index ≡ i
  pub id : p.chunk_id ≡ generate_chunk_id sha256 path i
  pub replicas : length p.node_ids ≡ count
  pub distinct : Distinct p.node_ids
  pub candidates : All (λ k. mem k healthy ≡ true) p.node_ids
  pub addresses : p.node_addresses ≡ map (address_of nodes) p.node_ids

-- The placements of the chunks from `i` on, in order.
abbrev pub PlacedFrom :
    (sha256 : List ℕ → List ℕ) (path : Str) (nodes : Map DataNodeInfo) (healthy : List Str)
    (count i : ℕ)
    → List ChunkPlacementInfo
    → Type 0
PlacedFrom sha256 path nodes healthy count i [] = Unit
PlacedFrom sha256 path nodes healthy count i (p ∷ ps) =
    IsPlacement sha256 path nodes healthy count i p
    × PlacedFrom sha256 path nodes healthy count (i + 1) ps

All-mem_cons :
    (x : Str) (xs ys : List Str)
    → All (λ k. mem k xs ≡ true) ys
    → All (λ k. mem k (x ∷ xs) ≡ true) ys
unfolding mem
All-mem_cons x xs [] h = tt
All-mem_cons x xs (y ∷ ys) h = (ground arith, All-mem_cons x xs ys h.1)

pub All-mem_self : (xs : List Str) → All (λ k. mem k xs ≡ true) xs
unfolding mem
All-mem_self [] = tt
All-mem_self (x ∷ xs) = (ground (arith, eq_refl x), All-mem_cons x xs xs (All-mem_self xs))

pub load-All :
    (P : Str → Type 0) (nodes : Map DataNodeInfo) (ks : List Str)
    → All P ks
    → All (λ c. P c.0) (load nodes ks)
unfolding load
load-All P nodes [] h = tt
load-All P nodes (k ∷ ks) h = elim (Option-cases (lookup k nodes)) [
  | inl out ↦ rw (out, load) (load-All P nodes ks h.1)
  | inr (n, found) ↦ rw (found, load) (h.0, load-All P nodes ks h.1)
]

pub All-pointers :
    (P : Str → Type 0) (cs : List Candidate) → All (λ c. P c.0) cs → All P (pointers cs)
All-pointers P [] h = tt
All-pointers P (c ∷ cs) h = (h.0, All-pointers P cs h.1)

pub addresses-pointers :
    (nodes : Map DataNodeInfo) (cs : List Candidate)
    → Shown nodes cs
    → addresses_of cs ≡ map (address_of nodes) (pointers cs)
addresses-pointers nodes [] h = refl
addresses-pointers nodes (c ∷ cs) h =
    let here : address_of nodes c.0 ≡ c.1.address = rw (h.0, address_of) in
    cc (here, addresses-pointers nodes cs h.1)

pub address_of-same :
    {nodes nodes' : Map DataNodeInfo} (s : SameNodes nodes nodes') (ks : List Str)
    → Registered nodes ks
    → map (address_of nodes') ks ≡ map (address_of nodes) ks
address_of-same s [] r = refl
address_of-same {nodes} {nodes'} s (k ∷ ks) r =
    let (n', found') = lookup_of_mem-keys k nodes' (rw s.same_keys r.0) in
    let (n, found, same) = s.comes_from k n' found' in
    let one : address_of nodes' k ≡ address_of nodes k =
      rw (found', address_of, found, address_of) same.same_address in
    cc (one, address_of-same s ks r.1)
