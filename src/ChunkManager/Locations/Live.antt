-- ===== src/ChunkManager/Locations/Live.antt =====
-- `GetChunkLocations` finds exactly the live replicas, or fails.
use sentinel_fs.Prelude.{
  ◌≡◌, ◌≢◌, refl, inl, inr, Str, Map, some, true, false, List, [], ◌∷◌, eq_iff, eq_refl, Bool-cases,
  Option-cases, lookup, mem, All, map, ok, arith, >>=-eq-ok, subst,
}
use sentinel_fs.ChunkManager.State.{DataNodeInfo, ChunkMeta, ChunkManager}
use sentinel_fs.ChunkManager.Nodes.{is_dead}
use sentinel_fs.ChunkManager.Locations.{
  ChunkLocationInfo, live_replicas, location_of, chunk_location, get_chunk_locations,
}

-- Node `k` is registered and not dead, and `address` is its address.
abbrev pub LiveAt : Map DataNodeInfo → Str → Str → Type 0
LiveAt nodes k address =
    (n : DataNodeInfo) × (lookup k nodes ≡ some n)
    × (is_dead n.status ≡ false)
    × (n.address ≡ address)

abbrev pub names : List (Str × Str) → List Str
names = map λ r. r.0

live_replicas_sound :
    (nodes : Map DataNodeInfo) (ids : List Str)
    → All (λ r. LiveAt nodes r.0 r.1 × (mem r.0 ids ≡ true)) (live_replicas nodes ids)
unfolding live_replicas mem
live_replicas_sound nodes [] = tt
live_replicas_sound nodes (k ∷ ids) = elim (Option-cases (lookup k nodes)) [
  | inl out ↦
      rw (out, live_replicas) (weaken (live_replicas nodes ids) (live_replicas_sound nodes ids))
  | inr (n, found) ↦ elim (Bool-cases (is_dead n.status)) [
    | inl gone ↦
        rw (found, live_replicas, gone)
          (weaken (live_replicas nodes ids) (live_replicas_sound nodes ids))
    | inr alive ↦
        rw (found, live_replicas, alive)
          (
            ((n, found, alive, refl), ground (arith, eq_refl k)),
            weaken (live_replicas nodes ids) (live_replicas_sound nodes ids),
          )
  ]
]
  where
    weaken :
        (rs : List (Str × Str))
        → All (λ r. LiveAt nodes r.0 r.1 × (mem r.0 ids ≡ true)) rs
        → All (λ r. LiveAt nodes r.0 r.1 × (mem r.0 (k ∷ ids) ≡ true)) rs
    weaken [] h = tt
    weaken (r ∷ rs) h = ((h.0.0, ground arith), weaken rs h.1)

pub live_replicas_complete :
    (nodes : Map DataNodeInfo) (ids : List Str) (k : Str) (n : DataNodeInfo)
    → mem k ids ≡ true
    → lookup k nodes ≡ some n
    → is_dead n.status ≡ false
    → mem k (names (live_replicas nodes ids)) ≡ true
unfolding live_replicas mem
live_replicas_complete nodes [] k n h e a = cc
live_replicas_complete nodes (j ∷ ids) k n h e a =
    ground (arith, live_replicas_complete nodes ids k n, eq_iff j k)

-- The location of chunk `c`: the registered replicas of its record that are not dead, at least one,
-- with their addresses.
pub record IsLocation (cm : ChunkManager) (c : Str) (l : ChunkLocationInfo) : Type 0 where
  pub meta : ChunkMeta
  pub recorded : lookup c cm.chunks ≡ some meta
  pub id : l.chunk_id ≡ meta.chunk_id
  pub index : l.chunk_index ≡ meta.chunk_index
  pub some_node : l.node_ids ≢ []
  pub replicas : List (Str × Str)
  pub their_ids : l.node_ids ≡ map (λ r. r.0) replicas
  pub their_addresses : l.node_addresses ≡ map (λ r. r.1) replicas
  pub live : All (λ r. LiveAt cm.nodes r.0 r.1 × (mem r.0 meta.node_ids ≡ true)) replicas
  pub every_live :
      (k : Str) (n : DataNodeInfo)
      → mem k meta.node_ids ≡ true
      → lookup k cm.nodes ≡ some n
      → is_dead n.status ≡ false
      → mem k l.node_ids ≡ true

abbrev pub Locations : ChunkManager → List Str → List ChunkLocationInfo → Type 0
Locations cm [] [] = Unit
Locations cm (c ∷ cs) (l ∷ ls) = IsLocation cm c l × Locations cm cs ls
Locations cm _ _ = ⊥

location_of-IsLocation :
    (cm : ChunkManager) (c : Str) (m : ChunkMeta) (rs : List (Str × Str)) (l : ChunkLocationInfo)
    → lookup c cm.chunks ≡ some m
    → live_replicas cm.nodes m.node_ids ≡ rs
    → location_of c m rs ≡ ok l
    → IsLocation cm c l
unfolding location_of
location_of-IsLocation cm c m [] l found e h = absurd (cc h)
location_of-IsLocation cm c m (r ∷ rs) l found e h = record {
  meta = m;
  recorded = found;
  id = ground arith;
  index = ground arith;
  some_node = λ none. ground arith;
  replicas = r ∷ rs;
  their_ids = ground arith;
  their_addresses = ground arith;
  live =
      subst (All λ x. LiveAt cm.nodes x.0 x.1 × (mem x.0 m.node_ids ≡ true)) e
        (live_replicas_sound cm.nodes m.node_ids);
  every_live = λ k n listed at alive.
      let shown : l.node_ids ≡ names (r ∷ rs) = ground arith in
      rw shown (
        subst (λ x. mem k (names x) ≡ true) e
          (live_replicas_complete cm.nodes m.node_ids k n listed at alive));
}

pub chunk_location-IsLocation :
    (cm : ChunkManager) (c : Str) (l : ChunkLocationInfo)
    → chunk_location cm c ≡ ok l
    → IsLocation cm c l
unfolding chunk_location
chunk_location-IsLocation cm c l h = elim (Option-cases (lookup c cm.chunks)) [
  | inl out ↦ absurd (cc (rw (out, chunk_location) at h))
  | inr (m, found) ↦
      location_of-IsLocation cm c m (live_replicas cm.nodes m.node_ids) l found refl
        (rw (found, chunk_location) at h)
]

-- When the locations of some chunks are found, there is one for each chunk, in order, with the index
-- of its record and, of the replicas that the record lists, all that are registered and not dead, at
-- least one and no other, each with its registered address.
pub get_chunk_locations-live :
    (cm : ChunkManager) (chunk_ids : List Str) (locs : List ChunkLocationInfo)
    → get_chunk_locations cm chunk_ids ≡ ok locs
    → Locations cm chunk_ids locs
unfolding get_chunk_locations
get_chunk_locations-live cm [] [] h = tt
get_chunk_locations-live cm [] (l ∷ ls) h = cc
get_chunk_locations-live cm (c ∷ cs) ls h =
    let (l, first, h') = >>=-eq-ok (chunk_location cm c) _ h in
    let (rest, others, h'') = >>=-eq-ok (get_chunk_locations cm cs) _ h' in
    let is : l ∷ rest ≡ ls = cc in
    subst (Locations cm (c ∷ cs)) is
      (chunk_location-IsLocation cm c l first, get_chunk_locations-live cm cs rest others)

-- Chunk `c` has a record, and a replica that is registered and not dead.
abbrev pub HasLive : ChunkManager → Str → Type 0
HasLive cm c =
    (m : ChunkMeta) × (lookup c cm.chunks ≡ some m)
    × (k : Str) × (address : Str) × LiveAt cm.nodes k address
    × (mem k m.node_ids ≡ true)
