-- ===== src/ChunkManager/Invariant/Runs.antt =====
-- Runs of the chunk manager from any state: what they keep.
use sentinel_fs.Prelude.{
  ℕ, ◌≡◌, refl, ◌∙◌, inl, inr, Str, Map, some, List, [], ◌==◌, leb, ltb, Bool-cases, Option-cases,
  lookup, put, modify, keys, length, Int64, lookup-mem-true, lookup_of_mem-keys, lookup-put,
  keys-modify,
}
use sentinel_fs.ChunkManager.State.{DataNodeInfo, ChunkManager}
use sentinel_fs.ChunkManager.Nodes.{
  register_node, find_address, update_heartbeat, beat, update_node_health, healthy_nodes,
  check_dead_nodes,
}
use sentinel_fs.ChunkManager.Placement.{max_pointers, allocate_chunks}
use sentinel_fs.ChunkManager.Replicas.{
  hold, forget, remove_chunks, update_chunk_checksum, add_chunk_to_node, remove_chunk_from_node,
}
use sentinel_fs.ChunkManager.Invariant.Registry.{SameNodes, SameNodes-refl}
use sentinel_fs.ChunkManager.Invariant.Register.{mark_dead-SameNodes}
use sentinel_fs.ChunkManager.Invariant.Placing.{place_chunks-SameNodes}
use sentinel_fs.ChunkManager.Invariant.Same.{remove_all-SameNodes}
use sentinel_fs.ChunkManager.Invariant.Steps.{
  Inv, OnRegistered, Step, registers, beats, grades, allocates, removes, sums, adds, drops, checks,
  reorders,
}
use sentinel_fs.ChunkManager.Invariant.Reach.{Step-Inv}

-- Any number of steps, with `AddChunkToNode` for registered nodes.
pub data Run (sha256 : List ℕ → List ℕ) (cm : ChunkManager) : ChunkManager → Type 0 where
  stay : Run sha256 cm cm
  more :
      {cm' cm'' : ChunkManager}
      → Run sha256 cm cm'
      → (s : Step sha256 cm' cm'') → OnRegistered s
      → Run sha256 cm cm''

-- Every node of the first registry is one of the second.
abbrev pub Keeps : Map DataNodeInfo → Map DataNodeInfo → Type 0
Keeps nodes nodes' =
    (k : Str) (n : DataNodeInfo)
    → lookup k nodes ≡ some n
    → (n' : DataNodeInfo) × (lookup k nodes' ≡ some n')

Keeps-keys : (nodes nodes' : Map DataNodeInfo) → keys nodes' ≡ keys nodes → Keeps nodes nodes'
Keeps-keys nodes nodes' e k n found =
    lookup_of_mem-keys k nodes' (rw e (lookup-mem-true k nodes found))

SameNodes-Keeps : {nodes nodes' : Map DataNodeInfo} → SameNodes nodes nodes' → Keeps nodes nodes'
SameNodes-Keeps {nodes} {nodes'} s = Keeps-keys nodes nodes' s.same_keys

modify-Keeps :
    (k : Str) (f : DataNodeInfo → DataNodeInfo) (nodes : Map DataNodeInfo)
    → Keeps nodes (modify k f nodes)
modify-Keeps k f nodes = Keeps-keys nodes (modify k f nodes) (keys-modify k f nodes)

put-Keeps : (k : Str) (x : DataNodeInfo) (nodes : Map DataNodeInfo) → Keeps nodes (put k x nodes)
put-Keeps k x nodes j n found = elim (Bool-cases (k == j)) [
  | inl hit ↦ (x, rw (lookup-put k j x nodes, hit) refl)
  | inr miss ↦ (n, rw (lookup-put k j x nodes, miss) found)
]

allocate_chunks-SameNodes :
    (sha256 : List ℕ → List ℕ) (path : Str) (size count : Int64) (now : ℕ) (cm : ChunkManager)
    → SameNodes cm.nodes (allocate_chunks sha256 path size count now cm).1.nodes
unfolding allocate_chunks
allocate_chunks-SameNodes sha256 path size count now cm =
    elim (Bool-cases (leb (length healthy) 0)) [
      | inl empty ↦ rw empty (SameNodes-refl cm.nodes)
      | inr some_healthy ↦ elim (Bool-cases (ltb max_pointers count)) [
        | inl too_long ↦ rw (some_healthy, too_long) (SameNodes-refl cm.nodes)
        | inr counts ↦
            rw (some_healthy, counts) (place_chunks-SameNodes sha256 path size healthy _ count 0 cm)
      ]
    ]
  where
    healthy : List Str
    healthy = healthy_nodes now cm.nodes

pub Step-Keeps :
    (sha256 : List ℕ → List ℕ) {cm cm' : ChunkManager}
    → Step sha256 cm cm'
    → Keeps cm.nodes cm'.nodes
unfolding update_node_health update_heartbeat check_dead_nodes remove_chunks add_chunk_to_node
    remove_chunk_from_node update_chunk_checksum register_node
Step-Keeps sha256 {cm} (registers a c t) = elim (Option-cases (find_address a cm.nodes)) [
  | inl out ↦ rw (out, register_node) (put-Keeps _ _ cm.nodes)
  | inr (hit, e) ↦ rw (e, register_node) (modify-Keeps hit.0 _ cm.nodes)
]
Step-Keeps sha256 {cm} (beats k u c t) = elim (Option-cases (lookup k cm.nodes)) [
  | inl out ↦ rw (out, update_heartbeat) (λ j n found. (n, found))
  | inr (n, found) ↦ rw (found, update_heartbeat) (modify-Keeps k (beat u c t) cm.nodes)
]
Step-Keeps sha256 {cm} (grades k s r) = modify-Keeps k _ cm.nodes
Step-Keeps sha256 {cm} (allocates p s c t) =
    SameNodes-Keeps (allocate_chunks-SameNodes sha256 p s c t cm)
Step-Keeps sha256 {cm} (removes ids) = SameNodes-Keeps (remove_all-SameNodes ids [] cm)
Step-Keeps sha256 (sums c s) = λ j n found. (n, found)
Step-Keeps sha256 {cm} (adds c k) = modify-Keeps k (hold c) cm.nodes
Step-Keeps sha256 {cm} (drops c k) = modify-Keeps k (forget c) cm.nodes
Step-Keeps sha256 {cm} (checks t) = SameNodes-Keeps (mark_dead-SameNodes t cm.nodes)
Step-Keeps sha256 (reorders cm' ns cs) = λ j n found. (n, ns.same_lookup j ∙ found)

pub Run-Keeps :
    (sha256 : List ℕ → List ℕ) {cm cm' : ChunkManager}
    → Run sha256 cm cm'
    → Keeps cm.nodes cm'.nodes
Run-Keeps sha256 stay k n found = (n, found)
Run-Keeps sha256 (more r s on) k n found =
    let (n', found') = Run-Keeps sha256 r k n found in Step-Keeps sha256 s k n' found'

pub Run-Inv :
    (sha256 : List ℕ → List ℕ) {cm cm' : ChunkManager} → Run sha256 cm cm' → Inv cm → Inv cm'
Run-Inv sha256 stay v = v
Run-Inv sha256 (more r s on) v = Step-Inv sha256 s on (Run-Inv sha256 r v)

pub Run-trans :
    (sha256 : List ℕ → List ℕ) {a b c : ChunkManager}
    → Run sha256 a b
    → Run sha256 b c
    → Run sha256 a c
Run-trans sha256 r stay = r
Run-trans sha256 r (more q s on) = more (Run-trans sha256 r q) s on
