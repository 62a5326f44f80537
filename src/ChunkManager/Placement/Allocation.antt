-- ===== src/ChunkManager/Placement/Allocation.antt =====
-- `AllocateChunks` on every branch.
use sentinel_fs.Prelude.{
  ℕ, zero, suc, ◌+◌, ◌^◌, ◌≤◌, ◌≡◌, ◌≢◌, ◌↔◌, refl, sym, ap, ◌∙◌, inl, inr, Str, Map, List, [], ◌∷◌,
  keys, Bool-cases, ltb, leb, min, length, Distinct, map, Int64, leb→le, ok, err, arith, length-map,
  if◌then◌else◌,
}
use mathlib.Core.Path.{subst₂}
use sentinel_fs.ChunkManager.State.{DataNodeInfo, ChunkManager, ChunkError}
use sentinel_fs.ChunkManager.Nodes.{healthy_nodes}
use sentinel_fs.ChunkManager.Placement.{
  max_pointers, Candidate, load, select_nodes, ids_of, ChunkPlacementInfo, place_chunk,
  place_chunks, allocate_chunks,
}
use sentinel_fs.ChunkManager.Placement.Targets.{
  Registered, Shown, pointers, healthy_nodes-Registered, healthy_nodes-Distinct, load-Shown,
  pointers-load, select_nodes-All, select_nodes-Distinct, ids_of-pointers, Registered-keys,
  Shown-Registered,
}
use sentinel_fs.ChunkManager.Placement.Replication.{
  IsPlacement, PlacedFrom, length-select_nodes, All-mem_self, load-All, All-pointers,
  addresses-pointers, address_of, address_of-same,
}
use sentinel_fs.ChunkManager.Placement.Ready.{HasReady, healthy_nodes_some}
use sentinel_fs.ChunkManager.Invariant.Registry.{
  NodesInv, SameNodes, SameNodes-refl, SameNodes-trans, SameNodes-NodesInv,
}
use sentinel_fs.ChunkManager.Invariant.Placing.{place_chunk-SameNodes}

module _ (sha256 : List ℕ → List ℕ) (path : Str) (size : Int64) (healthy : List Str) (count : ℕ)
    (enough : count ≤ length healthy) (distinct : Distinct healthy) where
  place_chunk-IsPlacement :
      (nodes : Map DataNodeInfo) (i : ℕ) (cm : ChunkManager)
      → NodesInv nodes
      → SameNodes nodes cm.nodes
      → Registered nodes healthy
      → IsPlacement sha256 path nodes healthy count i
          (place_chunk sha256 path size healthy count i cm).0
  unfolding place_chunk
  place_chunk-IsPlacement nodes i cm nv s r = record {
    index = refl;
    id = refl;
    replicas = omega (
      arith,
      length-map (λ (c : Candidate). c.1.node_id) targets,
      length-select_nodes (load cm.nodes healthy) count,
      length-map (λ (c : Candidate). c.0) (load cm.nodes healthy),
      ap length (pointers-load cm.nodes healthy r'),
    );
    distinct = rw same (
        select_nodes-Distinct (load cm.nodes healthy) count
          (rw (pointers-load cm.nodes healthy r') distinct));
    candidates = rw same (
        All-pointers _ targets (
          select_nodes-All _ (load cm.nodes healthy) count
            (load-All _ cm.nodes healthy (All-mem_self healthy))));
    addresses =
        addresses-pointers cm.nodes targets shown
        ∙ address_of-same s (pointers targets) known
        ∙ ap (map (address_of nodes)) (sym same);
  }
    where
      targets : List Candidate
      targets = select_nodes (load cm.nodes healthy) count

      r' : Registered cm.nodes healthy
      r' = Registered-keys nodes cm.nodes healthy s.same_keys r

      shown : Shown cm.nodes targets
      shown = select_nodes-All _ (load cm.nodes healthy) count (load-Shown cm.nodes healthy)

      same : ids_of targets ≡ pointers targets
      same = ids_of-pointers cm.nodes targets (SameNodes-NodesInv s nv).id_is_key shown

      known : Registered nodes (pointers targets)
      known =
          Registered-keys cm.nodes nodes (pointers targets) (sym s.same_keys)
            (Shown-Registered cm.nodes targets shown)

  place_chunks-PlacedFrom :
      (nodes : Map DataNodeInfo) (rounds i : ℕ) (cm : ChunkManager)
      → NodesInv nodes
      → SameNodes nodes cm.nodes
      → Registered nodes healthy
      → let ps = (place_chunks sha256 path size healthy count rounds i cm).0 in
        (length ps ≡ rounds) × PlacedFrom sha256 path nodes healthy count i ps
  unfolding place_chunks
  place_chunks-PlacedFrom nodes zero i cm nv s r = (refl, tt)
  place_chunks-PlacedFrom nodes (suc rounds) i cm nv s r =
      let cm' = (place_chunk sha256 path size healthy count i cm).1 in
      let rest =
        place_chunks-PlacedFrom nodes rounds (i + 1) cm' nv
          (SameNodes-trans s (place_chunk-SameNodes sha256 path size healthy count i cm)) r in
      (ap suc rest.0, (place_chunk-IsPlacement nodes i cm nv s r, rest.1))

abbrev factor : ℕ → ℕ
factor n = if ltb n 3 then n else 3

factor_lem : (n : ℕ) → factor n ≡ min 3 n
factor_lem n = ground arith

factor_le : (n : ℕ) → factor n ≤ n
factor_le n = ground arith

-- When an allocation in a well-formed registry succeeds, it returns as many placements as chunks were
-- asked for, in the order of the chunks; each is for the chunk's own id, on min(3, healthy nodes)
-- distinct nodes, all of them healthy at the time of the call, and gives their registered addresses
-- in the same order.
pub allocate_chunks-replicates :
    (sha256 : List ℕ → List ℕ) (path : Str) (size chunk_count : Int64) (now : ℕ) (cm : ChunkManager)
    (ps : List ChunkPlacementInfo)
    → NodesInv cm.nodes
    → (allocate_chunks sha256 path size chunk_count now cm).0 ≡ ok ps
    → let healthy = healthy_nodes now cm.nodes in
      (length ps ≡ chunk_count)
      × PlacedFrom sha256 path cm.nodes healthy (min 3 (length healthy)) 0 ps
unfolding allocate_chunks
allocate_chunks-replicates sha256 path size chunk_count now cm ps v h =
    subst₂
      (λ (l : List ChunkPlacementInfo) (n : ℕ).
        (length l ≡ chunk_count) × PlacedFrom sha256 path cm.nodes healthy n 0 l)
      placed (factor_lem (length healthy)) all
  where
    healthy : List Str
    healthy = healthy_nodes now cm.nodes

    placed :
        (place_chunks sha256 path size healthy (factor (length healthy)) chunk_count 0 cm).0 ≡ ps
    placed = elim (Bool-cases (leb (length healthy) 0)) [
      | inl empty ↦ cc (rw empty at h)
      | inr full ↦ elim (Bool-cases (ltb max_pointers chunk_count)) [
        | inl too_long ↦ cc (rw (full, too_long) at h)
        | inr counts ↦ cc (rw (full, counts) at h)
      ]
    ]

    all :
        let l =
          (place_chunks sha256 path size healthy (factor (length healthy)) chunk_count 0 cm).0 in
        (length l ≡ chunk_count)
        × PlacedFrom sha256 path cm.nodes healthy (factor (length healthy)) 0 l
    all =
        place_chunks-PlacedFrom sha256 path size healthy (factor (length healthy)) (factor_le _)
          (healthy_nodes-Distinct now cm.nodes v.keys_distinct) cm.nodes chunk_count 0 cm v
          (SameNodes-refl cm.nodes) (healthy_nodes-Registered now cm.nodes)

length-zero {ℓ} : {A : Type ℓ} (xs : List A) → length xs ≤ 0 → xs ≡ []
length-zero [] h = refl
length-zero (x ∷ xs) h = absurd (omega arith)

allocate_chunks-guards :
    (sha256 : List ℕ → List ℕ) (path : Str) (size chunk_count : Int64) (now : ℕ) (cm : ChunkManager)
    → let r = allocate_chunks sha256 path size chunk_count now cm in
      (((ps : List ChunkPlacementInfo) × (r.0 ≡ ok ps))
        ↔ ((healthy_nodes now cm.nodes ≢ []) × (chunk_count ≤ max_pointers)))
      × ((e : ChunkError) → r.0 ≡ err e → r.1 ≡ cm)
unfolding allocate_chunks
allocate_chunks-guards sha256 path size chunk_count now cm =
    elim (Bool-cases (leb (length healthy) 0)) [
      | inl empty ↦ rw empty (
        (
          λ (ps, e). absurd (cc e),
          λ (full, counts). absurd (full (length-zero healthy (leb→le _ _ empty))),
        ),
        λ e h. refl,
      )
      | inr full ↦ elim (Bool-cases (ltb max_pointers chunk_count)) [
        | inl too_long ↦
            rw (full, too_long)
              ((λ (ps, e). absurd (cc e), λ (_, counts). absurd (ground arith)), λ e h. refl)
        | inr counts ↦
            rw (full, counts)
              (
                (λ r. ((λ none. ground (arith, ap length none)), ground arith), λ r. (_, refl)),
                λ e h. absurd (cc h),
              )
      ]
    ]
  where
    healthy : List Str
    healthy = healthy_nodes now cm.nodes

-- In a registry without duplicate ids, an allocation succeeds exactly if some registered node is
-- healthy or warning and was heard of within the timeout, and the count is not negative as an int and
-- at most 2 ^ 45, the pointers that `make` allocates at most. When it fails, it changes nothing.
pub allocate_chunks_error :
    (sha256 : List ℕ → List ℕ) (path : Str) (size chunk_count : Int64) (now : ℕ) (cm : ChunkManager)
    → Distinct (keys cm.nodes)
    → let r = allocate_chunks sha256 path size chunk_count now cm in
      (((ps : List ChunkPlacementInfo) × (r.0 ≡ ok ps))
        ↔ (HasReady now cm.nodes × (chunk_count ≤ 2 ^ 45)))
      × ((e : ChunkError) → r.0 ≡ err e → r.1 ≡ cm)
allocate_chunks_error sha256 path size chunk_count now cm d =
    let (guards, kept) = allocate_chunks-guards sha256 path size chunk_count now cm in
    let ready = healthy_nodes_some now cm.nodes d in
    (
      (
        λ r. let (full, fits) = guards.0 r in (ready.0 full, fits),
        λ (some_ready, fits). guards.1 (ready.1 some_ready, fits),
      ),
      kept,
    )
