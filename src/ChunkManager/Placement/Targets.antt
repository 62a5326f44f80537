-- ===== src/ChunkManager/Placement/Targets.antt =====
-- The candidates and the targets of a placement: what the pointers show, and that they are distinct.
use mathlib.Core.List.Perm
use sentinel_fs.Prelude.{
  ℕ, ◌≡◌, refl, ap, inl, inr, Str, Map, some, true, false, List, [], ◌∷◌, eq_refl, Bool-cases,
  Option-cases, lookup, mem, keys, Distinct, All, map, All-take, map-take, take-Distinct,
  Distinct-perm, arith, lookup-mem-true, lookup_of_mem-keys,
}
use sentinel_fs.Sorting.{sort_slice}
use sentinel_fs.Sorting.Order.{sort_slice-perm, sort_slice-All}
use sentinel_fs.ChunkManager.State.{DataNodeInfo}
use sentinel_fs.ChunkManager.Nodes.{healthy_nodes, can_receive}
use sentinel_fs.ChunkManager.Placement.{Candidate, less, load, select_nodes, ids_of}

-- Each pointer is a key of the map.
abbrev pub Registered : Map DataNodeInfo → List Str → Type 0
Registered nodes = All λ k. mem k (keys nodes) ≡ true

-- Each candidate is what its pointer shows.
abbrev pub Shown : Map DataNodeInfo → List Candidate → Type 0
Shown nodes = All λ c. lookup c.0 nodes ≡ some c.1

abbrev pub pointers : List Candidate → List Str
pointers = map λ c. c.0

Registered-cons :
    (k : Str) (n : DataNodeInfo) (nodes : Map DataNodeInfo) (ks : List Str)
    → Registered nodes ks
    → Registered ((k, n) ∷ nodes) ks
unfolding mem
Registered-cons k n nodes [] h = tt
Registered-cons k n nodes (j ∷ ks) h = (ground arith, Registered-cons k n nodes ks h.1)

pub healthy_nodes-Registered :
    (now : ℕ) (nodes : Map DataNodeInfo) → Registered nodes (healthy_nodes now nodes)
unfolding healthy_nodes mem
healthy_nodes-Registered now [] = tt
healthy_nodes-Registered now ((k, n) ∷ nodes) = elim (Bool-cases (can_receive now n)) [
  | inl e ↦ rw e (
    ground (arith, eq_refl k),
    Registered-cons k n nodes (healthy_nodes now nodes) (healthy_nodes-Registered now nodes),
  )
  | inr e ↦
      rw e
        (Registered-cons k n nodes (healthy_nodes now nodes) (healthy_nodes-Registered now nodes))
]

pub mem-healthy_nodes_false :
    (now : ℕ) (k : Str) (nodes : Map DataNodeInfo)
    → mem k (keys nodes) ≡ false
    → mem k (healthy_nodes now nodes) ≡ false
unfolding healthy_nodes mem
mem-healthy_nodes_false now k [] h = refl
mem-healthy_nodes_false now k ((j, n) ∷ nodes) h =
    ground (arith, mem-healthy_nodes_false now k nodes)

pub healthy_nodes-Distinct :
    (now : ℕ) (nodes : Map DataNodeInfo)
    → Distinct (keys nodes)
    → Distinct (healthy_nodes now nodes)
unfolding healthy_nodes
healthy_nodes-Distinct now [] d = tt
healthy_nodes-Distinct now ((k, n) ∷ nodes) d =
    ground (arith, healthy_nodes-Distinct now nodes d.1, mem-healthy_nodes_false now k nodes d.0)

pub load-Shown : (nodes : Map DataNodeInfo) (ks : List Str) → Shown nodes (load nodes ks)
unfolding load
load-Shown nodes [] = tt
load-Shown nodes (k ∷ ks) = elim (Option-cases (lookup k nodes)) [
  | inl out ↦ rw (out, load) (load-Shown nodes ks)
  | inr (n, found) ↦ rw (found, load) (found, load-Shown nodes ks)
]

-- Of registered pointers none is lost.
pub pointers-load :
    (nodes : Map DataNodeInfo) (ks : List Str) → Registered nodes ks → pointers (load nodes ks) ≡ ks
unfolding load
pointers-load nodes [] h = refl
pointers-load nodes (k ∷ ks) h =
    let (n, found) = lookup_of_mem-keys k nodes h.0 in
    rw (found, load) (ap (λ l. k ∷ l) (pointers-load nodes ks h.1))

pub select_nodes-All :
    (Q : Candidate → Type 0) (cs : List Candidate) (count : ℕ)
    → All Q cs
    → All Q (select_nodes cs count)
unfolding select_nodes
select_nodes-All Q cs count h = All-take Q _ (sort_slice less cs) (sort_slice-All less Q cs h)

pub select_nodes-Distinct :
    (cs : List Candidate) (count : ℕ)
    → Distinct (pointers cs)
    → Distinct (pointers (select_nodes cs count))
unfolding select_nodes
select_nodes-Distinct cs count d = rw map-take (
    take-Distinct _ (pointers (sort_slice less cs))
      (Distinct-perm (Perm.map _ (Perm.symm (sort_slice-perm less cs))) d))

-- Under their own ids, the ids of the targets are their pointers.
pub ids_of-pointers :
    (nodes : Map DataNodeInfo) (cs : List Candidate)
    → ((k : Str) (n : DataNodeInfo) → lookup k nodes ≡ some n → n.node_id ≡ k)
    → Shown nodes cs
    → ids_of cs ≡ pointers cs
ids_of-pointers nodes [] ids h = refl
ids_of-pointers nodes (c ∷ cs) ids h = cc (ids c.0 c.1 h.0, ids_of-pointers nodes cs ids h.1)

pub Registered-keys :
    (nodes nodes' : Map DataNodeInfo) (ks : List Str)
    → keys nodes' ≡ keys nodes
    → Registered nodes ks
    → Registered nodes' ks
Registered-keys nodes nodes' [] same h = tt
Registered-keys nodes nodes' (k ∷ ks) same h =
    (rw same h.0, Registered-keys nodes nodes' ks same h.1)

pub Shown-Registered :
    (nodes : Map DataNodeInfo) (cs : List Candidate)
    → Shown nodes cs
    → Registered nodes (pointers cs)
Shown-Registered nodes [] h = tt
Shown-Registered nodes (c ∷ cs) h = (lookup-mem_key, Shown-Registered nodes cs h.1)
  where
    lookup-mem_key : mem c.0 (keys nodes) ≡ true
    lookup-mem_key = lookup-mem-true c.0 nodes {v = c.1} h.0
