-- ===== src/ChunkManager/Locations/Fresh.antt =====
-- Chunks that were just placed are found where they were placed.
use sentinel_fs.Prelude.{
  ℕ, zero, suc, ◌+◌, ◌≤◌, ◌≡◌, refl, sym, ◌∙◌, ap, inl, inr, List, [], ◌∷◌, map, true, false, some,
  Str, ◌==◌, eq_refl, Map, insert, lookup, modify, keys, mem, Distinct, length, All, Bool-cases,
  lookup-put, lookup-modify, lookup_of_mem-keys, if◌then◌else◌, Int64, ok, arith, min, leb, ltb,
  subst,
}
use sentinel_fs.Config.{
  default_replication_factor, NodeStatus, healthy, warning, at_risk, critical, dead,
}
use sentinel_fs.ChunkManager.State.{DataNodeInfo, ChunkMeta, ChunkManager}
use sentinel_fs.ChunkManager.Nodes.{healthy_nodes, can_receive, receives_chunks, is_dead}
use sentinel_fs.ChunkManager.Placement.{
  max_pointers, Candidate, ChunkPlacementInfo, add_to_targets, place_chunk, place_chunks,
  size_of_chunk, allocate_chunks,
}
use sentinel_fs.ChunkManager.Placement.Targets.{mem-healthy_nodes_false}
use sentinel_fs.ChunkManager.Placement.Replication.{PlacedFrom, address_of, healthy_nodes_lem}
use sentinel_fs.ChunkManager.Placement.Allocation.{allocate_chunks-replicates}
use sentinel_fs.ChunkManager.Invariant.Registry.{NodesInv}
use sentinel_fs.ChunkManager.Locations.{
  ChunkLocationInfo, live_replicas, location_of, chunk_location, get_chunk_locations,
}

-- Every node of the first registry is in the second one, with its status and its address.
abbrev Alike : Map DataNodeInfo → Map DataNodeInfo → Type 0
Alike nodes nodes' =
    (k : Str) (n : DataNodeInfo)
    → lookup k nodes ≡ some n
    → (n' : DataNodeInfo) × (lookup k nodes' ≡ some n')
      × (n'.status ≡ n.status)
      × (n'.address ≡ n.address)

Alike-trans : (a b c : Map DataNodeInfo) → Alike a b → Alike b c → Alike a c
Alike-trans a b c f g k n found =
    let (n', found', s, d) = f k n found in
    let (n'', found'', s', d') = g k n' found' in (n'', found'', s' ∙ s, d' ∙ d)

modify-Alike :
    (j : Str) (f : DataNodeInfo → DataNodeInfo) (nodes : Map DataNodeInfo)
    → ((n : DataNodeInfo) → ((f n).status ≡ n.status) × ((f n).address ≡ n.address))
    → Alike nodes (modify j f nodes)
modify-Alike j f nodes keeps k n found = elim (Bool-cases (j == k)) [
  | inl hit ↦ (f n, lookup-modify j k f nodes ∙ rw (hit, found) refl, (keeps n).0, (keeps n).1)
  | inr miss ↦ (n, lookup-modify j k f nodes ∙ rw (miss, found) refl, refl, refl)
]

add_to_targets-Alike :
    (c : Str) (ts : List Candidate) (nodes : Map DataNodeInfo)
    → Alike nodes (add_to_targets c ts nodes)
unfolding add_to_targets
add_to_targets-Alike c [] nodes = λ k n found. (n, found, refl, refl)
add_to_targets-Alike c (t ∷ ts) nodes =
    let add : DataNodeInfo → DataNodeInfo = λ n. record n { chunks = insert c n.chunks } in
    Alike-trans nodes (modify t.0 add nodes) (add_to_targets c ts (modify t.0 add nodes))
      (modify-Alike t.0 add nodes (λ n. (refl, refl)))
      (add_to_targets-Alike c ts (modify t.0 add nodes))

-- The record of a placement.
abbrev Recorded : Map ChunkMeta → ChunkPlacementInfo → Type 0
Recorded chunks p =
    (m : ChunkMeta) × (lookup p.chunk_id chunks ≡ some m)
    × (m.chunk_id ≡ p.chunk_id)
    × (m.chunk_index ≡ p.chunk_index)
    × (m.node_ids ≡ p.node_ids)

abbrev pub ids_placed : List ChunkPlacementInfo → List Str
ids_placed = map λ p. p.chunk_id

module _ (sha256 : List ℕ → List ℕ) (path : Str) (size : Int64) (healthy : List Str)
    (count : ℕ) where
  place_chunks-Alike :
      (rounds i : ℕ) (cm : ChunkManager)
      → Alike cm.nodes (place_chunks sha256 path size healthy count rounds i cm).1.nodes
  unfolding place_chunks place_chunk
  place_chunks-Alike zero i cm = λ k n found. (n, found, refl, refl)
  place_chunks-Alike (suc rounds) i cm =
      let cm' = (place_chunk sha256 path size healthy count i cm).1 in
      Alike-trans cm.nodes cm'.nodes
        (place_chunks sha256 path size healthy count rounds (i + 1) cm').1.nodes
        (add_to_targets-Alike _ _ cm.nodes) (place_chunks-Alike rounds (i + 1) cm')

  place_chunks-other :
      (rounds i : ℕ) (cm : ChunkManager) (d : Str)
      → let r = place_chunks sha256 path size healthy count rounds i cm in
        mem d (ids_placed r.0) ≡ false → lookup d r.1.chunks ≡ lookup d cm.chunks
  unfolding place_chunks place_chunk mem
  place_chunks-other zero i cm d h = refl
  place_chunks-other (suc rounds) i cm d h =
      let (p, cm') = place_chunk sha256 path size healthy count i cm in
      let other : (p.chunk_id == d) ≡ false = ground arith in
      place_chunks-other rounds (i + 1) cm' d (ground arith)
      ∙ lookup-put p.chunk_id d _ cm.chunks
      ∙ rw other refl

  place_chunks-Recorded :
      (rounds i : ℕ) (cm : ChunkManager)
      → let r = place_chunks sha256 path size healthy count rounds i cm in
        Distinct (ids_placed r.0) → All (Recorded r.1.chunks) r.0
  unfolding place_chunks place_chunk
  place_chunks-Recorded zero i cm d = tt
  place_chunks-Recorded (suc rounds) i cm d =
      let (p, cm') = place_chunk sha256 path size healthy count i cm in
      (
        (
          record {
            chunk_id = p.chunk_id;
            chunk_index = i;
            size = size_of_chunk size i;
            checksum = [];
            node_ids = p.node_ids;
            file_path = path;
          },
          place_chunks-other rounds (i + 1) cm' p.chunk_id d.0
              ∙ lookup-put p.chunk_id p.chunk_id _ cm.chunks
              ∙ rw (eq_refl p.chunk_id) refl,
          refl,
          refl,
          refl,
        ),
        place_chunks-Recorded rounds (i + 1) cm' d.1,
      )

-- The node is registered and not dead.
abbrev Alive : Map DataNodeInfo → Str → Type 0
Alive nodes k = (n : DataNodeInfo) × (lookup k nodes ≡ some n) × (is_dead n.status ≡ false)

receives-is_dead : (s : NodeStatus) → receives_chunks s ≡ true → is_dead s ≡ false
receives-is_dead healthy h = refl
receives-is_dead warning h = refl
receives-is_dead at_risk h = refl
receives-is_dead critical h = refl
receives-is_dead dead h = cc

healthy_nodes-Alive :
    (now : ℕ) (nodes : Map DataNodeInfo) (k : Str)
    → Distinct (keys nodes)
    → mem k (healthy_nodes now nodes) ≡ true
    → Alive nodes k
unfolding can_receive
healthy_nodes-Alive now nodes k d h = elim (Bool-cases (mem k (keys nodes))) [
  | inr out ↦ absurd (cc (sym h ∙ mem-healthy_nodes_false now k nodes out))
  | inl known ↦
      let (n, found) = lookup_of_mem-keys k nodes known in
      let can : can_receive now n ≡ true = sym (healthy_nodes_lem now nodes k n d found) ∙ h in
      (n, found, receives-is_dead n.status (ground arith))
]

live_replicas-Alive :
    (nodes nodes' : Map DataNodeInfo) (ids : List Str)
    → Alike nodes nodes'
    → All (Alive nodes) ids
    → live_replicas nodes' ids ≡ map (λ k. (k, address_of nodes k)) ids
unfolding live_replicas
live_replicas-Alive nodes nodes' [] a h = refl
live_replicas-Alive nodes nodes' (k ∷ ids) a h =
    let (n, found, alive) = h.0 in
    let (n', found', same, at) = a k n found in
    let here : address_of nodes k ≡ n.address = rw (found, address_of) in
    rw (live_replicas, found', same, alive)
      (ap (λ x. (k, x) ∷ live_replicas nodes' ids) (at ∙ sym here)
        ∙ ap (λ l. (k, address_of nodes k) ∷ l) (live_replicas-Alive nodes nodes' ids a h.1))

-- The location of a chunk whose replicas are all where they were placed.
abbrev pub located : ChunkPlacementInfo → ChunkLocationInfo
located p = record {
  chunk_id = p.chunk_id;
  chunk_index = p.chunk_index;
  node_addresses = p.node_addresses;
  node_ids = p.node_ids;
}

map-pairs :
    (f : Str → Str) (ids : List Str)
    → (map (λ (q : Str × Str). q.0) (map (λ k. (k, f k)) ids) ≡ ids)
      × (map (λ (q : Str × Str). q.1) (map (λ k. (k, f k)) ids) ≡ map f ids)
map-pairs f [] = (refl, refl)
map-pairs f (k ∷ ids) =
    let (keys_same, values_same) = map-pairs f ids in
    (ap (λ l. k ∷ l) keys_same, ap (λ l. f k ∷ l) values_same)

location_of-pairs :
    (cid : Str) (m : ChunkMeta) (f : Str → Str) (ids : List Str)
    → 1 ≤ length ids
    → location_of cid m (map (λ k. (k, f k)) ids)
      ≡ ok (record {
        chunk_id = m.chunk_id;
        chunk_index = m.chunk_index;
        node_addresses = map f ids;
        node_ids = ids;
      })
unfolding location_of
location_of-pairs cid m f [] h = absurd (omega (arith, h))
location_of-pairs cid m f (k ∷ ids) h =
    let (keys_same, values_same) = map-pairs f ids in rw (keys_same, values_same) refl

chunk_location-placed :
    (nodes : Map DataNodeInfo) (cm : ChunkManager) (p : ChunkPlacementInfo)
    → Alike nodes cm.nodes
    → All (Alive nodes) p.node_ids
    → 1 ≤ length p.node_ids
    → p.node_addresses ≡ map (address_of nodes) p.node_ids
    → Recorded cm.chunks p
    → chunk_location cm p.chunk_id ≡ ok (located p)
unfolding chunk_location
chunk_location-placed nodes cm p a h some_node at r =
    let (m, found, same_id, same_index, same_nodes) = r in
    rw (chunk_location, found)
      (ap (λ l. location_of p.chunk_id m (live_replicas cm.nodes l)) same_nodes
        ∙ ap (location_of p.chunk_id m) (live_replicas-Alive nodes cm.nodes p.node_ids a h)
        ∙ location_of-pairs p.chunk_id m (address_of nodes) p.node_ids some_node
        ∙ rw (same_id, same_index)
            (ap
              (λ addresses. ok (record {
                chunk_id = p.chunk_id;
                chunk_index = p.chunk_index;
                node_addresses = addresses;
                node_ids = p.node_ids;
              }))
              (sym at)))

All-Alive :
    (now : ℕ) (nodes : Map DataNodeInfo) (ids : List Str)
    → Distinct (keys nodes)
    → All (λ k. mem k (healthy_nodes now nodes) ≡ true) ids
    → All (Alive nodes) ids
All-Alive now nodes [] d h = tt
All-Alive now nodes (k ∷ ids) d h =
    (healthy_nodes-Alive now nodes k d h.0, All-Alive now nodes ids d h.1)

get_chunk_locations-placed :
    (sha256 : List ℕ → List ℕ) (path : Str) (now count i : ℕ) (nodes : Map DataNodeInfo)
    (cm : ChunkManager) (ps : List ChunkPlacementInfo)
    → Distinct (keys nodes)
    → 1 ≤ count
    → Alike nodes cm.nodes
    → PlacedFrom sha256 path nodes (healthy_nodes now nodes) count i ps
    → All (Recorded cm.chunks) ps
    → get_chunk_locations cm (ids_placed ps) ≡ ok (map located ps)
unfolding get_chunk_locations
get_chunk_locations-placed sha256 path now count i nodes cm [] d some_node a placed recorded = refl
get_chunk_locations-placed sha256 path now count i nodes cm (p ∷ ps) d some_node a placed recorded =
    let one = placed.0 in
    let first =
      chunk_location-placed nodes cm p a (All-Alive now nodes p.node_ids d one.candidates)
        (omega (arith, one.replicas)) one.addresses recorded.0 in
    rw
      (
        get_chunk_locations,
        first,
        get_chunk_locations-placed sha256 path now count (i + 1) nodes cm ps d some_node a placed.1
            recorded.1,
      )
      refl

-- When an allocation in a well-formed registry succeeds and its chunks have different ids: the
-- locations of its chunks are found in the new state, and are those of the placements, in order: the
-- same indexes, nodes and addresses.
pub allocate_chunks-located :
    (sha256 : List ℕ → List ℕ) (path : Str) (size chunk_count : Int64) (now : ℕ) (cm : ChunkManager)
    (ps : List ChunkPlacementInfo)
    → NodesInv cm.nodes
    → Distinct (ids_placed ps)
    → (allocate_chunks sha256 path size chunk_count now cm).0 ≡ ok ps
    → get_chunk_locations (allocate_chunks sha256 path size chunk_count now cm).1 (ids_placed ps)
      ≡ ok (map located ps)
unfolding allocate_chunks
allocate_chunks-located sha256 path size chunk_count now cm ps v distinct done =
    elim (Bool-cases (leb (length healthy) 0)) [
      | inl empty ↦ absurd (cc (rw (empty, allocate_chunks) at done))
      | inr full ↦ elim (Bool-cases (ltb max_pointers chunk_count)) [
        | inl too_long ↦ absurd (cc (rw (full, too_long, allocate_chunks) at done))
        | inr counts ↦
            rw (full, counts, allocate_chunks)
              (found (cc (rw (full, counts, allocate_chunks) at done)) (ground arith))
      ]
    ]
  where
    healthy : List Str
    healthy = healthy_nodes now cm.nodes

    factor : ℕ
    factor =
        if ltb (length healthy) default_replication_factor
        then length healthy
        else default_replication_factor

    r : List ChunkPlacementInfo × ChunkManager
    r = place_chunks sha256 path size healthy factor chunk_count 0 cm

    found :
        r.0 ≡ ps
        → 1 ≤ length healthy
        → get_chunk_locations r.1 (ids_placed ps) ≡ ok (map located ps)
    found same some_node =
        get_chunk_locations-placed sha256 path now (min 3 (length healthy)) 0 cm.nodes r.1 ps
          v.keys_distinct (omega arith)
          (place_chunks-Alike sha256 path size healthy factor chunk_count 0 cm)
          (allocate_chunks-replicates sha256 path size chunk_count now cm ps v done).1
          (subst (All (Recorded r.1.chunks)) same (
            place_chunks-Recorded sha256 path size healthy factor chunk_count 0 cm
              (subst (λ l. Distinct (ids_placed l)) (sym same) distinct)))
