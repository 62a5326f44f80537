-- ===== src/ChunkManager/Locations/Found.antt =====
-- When chunks are found at all, and which nodes the dead-node check takes out.
use sentinel_fs.Prelude.{
  ℕ, ◌≤◌, ◌<◌, ◌-◌, ◌≡◌, ◌↔◌, refl, Str, some, true, List, [], ◌∷◌, lookup, mem, All, map, ok,
  arith,
}
use sentinel_fs.Config.{dead, dead_node_timeout}
use sentinel_fs.ChunkManager.State.{DataNodeInfo, ChunkMeta, ChunkManager}
use sentinel_fs.ChunkManager.Nodes.{is_stale, check_dead_nodes, mark_dead}
use sentinel_fs.ChunkManager.Locations.{
  ChunkLocationInfo, live_replicas, location_of, chunk_location, get_chunk_locations,
}
use sentinel_fs.ChunkManager.Locations.Live.{
  LiveAt, live_replicas_complete, IsLocation, Locations, HasLive, get_chunk_locations-live,
}
use sentinel_fs.ChunkManager.Invariant.Register.{lookup-mark_dead, age}

IsLocation-HasLive :
    (cm : ChunkManager) (c : Str) (l : ChunkLocationInfo) → IsLocation cm c l → HasLive cm c
IsLocation-HasLive cm c l v = first v.replicas v.their_ids v.live
  where
    first :
        (rs : List (Str × Str))
        → l.node_ids ≡ map (λ r. r.0) rs
        → All (λ r. LiveAt cm.nodes r.0 r.1 × (mem r.0 v.meta.node_ids ≡ true)) rs
        → HasLive cm c
    first [] e h = absurd (v.some_node e)
    first (r ∷ rs) e h = (v.meta, v.recorded, r.0, r.1, h.0.0, h.0.1)

Locations-HasLive :
    (cm : ChunkManager) (cs : List Str) (ls : List ChunkLocationInfo)
    → Locations cm cs ls
    → All (HasLive cm) cs
Locations-HasLive cm [] ls v = tt
Locations-HasLive cm (c ∷ cs) [] v = absurd v
Locations-HasLive cm (c ∷ cs) (l ∷ ls) v =
    (IsLocation-HasLive cm c l v.0, Locations-HasLive cm cs ls v.1)

location_at : ChunkMeta → Str × Str → List (Str × Str) → ChunkLocationInfo
location_at m r rs = record {
  chunk_id = m.chunk_id;
  chunk_index = m.chunk_index;
  node_addresses = map (λ p. p.1) (r ∷ rs);
  node_ids = map (λ p. p.0) (r ∷ rs);
}

HasLive-chunk_location :
    (cm : ChunkManager) (c : Str)
    → HasLive cm c
    → (l : ChunkLocationInfo) × (chunk_location cm c ≡ ok l)
unfolding chunk_location mem location_at
HasLive-chunk_location cm c (m, found, k, address, (n, at, alive, _), listed) =
    split (live_replicas cm.nodes m.node_ids) refl
  where
    split :
        (rs : List (Str × Str))
        → live_replicas cm.nodes m.node_ids ≡ rs
        → (l : ChunkLocationInfo) × (chunk_location cm c ≡ ok l)
    split [] e =
        absurd (cc (rw e at (live_replicas_complete cm.nodes m.node_ids k n listed at alive)))
    split (r ∷ rs) e = (location_at m r rs, rw (found, chunk_location, e, location_of) refl)

-- The locations of a list of chunks are found exactly if every chunk of it has a record that lists a
-- registered node which is not dead.
pub get_chunk_locations_found :
    (cm : ChunkManager) (chunk_ids : List Str)
    → ((locs : List ChunkLocationInfo) × (get_chunk_locations cm chunk_ids ≡ ok locs))
      ↔ All (HasLive cm) chunk_ids
unfolding get_chunk_locations
get_chunk_locations_found cm ids =
    (λ r. Locations-HasLive cm ids r.0 (get_chunk_locations-live cm ids r.0 r.1), all ids)
  where
    all :
        (cs : List Str)
        → All (HasLive cm) cs
        → (locs : List ChunkLocationInfo) × (get_chunk_locations cm cs ≡ ok locs)
    all [] h = ([], refl)
    all (c ∷ cs) h =
        let (l, first) = HasLive-chunk_location cm c h.0 in
        let (ls, others) = all cs h.1 in (l ∷ ls, rw (first, others) refl)

-- After the dead-node check at time `now`, a node keeps its record but for its status: it is dead if
-- it was dead before or its last heartbeat is more than the timeout old, and has its old status
-- otherwise. So in the state right after the
-- check, no node that has been silent for longer counts as live.
pub check_dead_nodes-status :
    (now : ℕ) (cm : ChunkManager) (k : Str) (n : DataNodeInfo)
    → lookup k cm.nodes ≡ some n
    → let cm' = (check_dead_nodes now cm).1 in
      ((n' : DataNodeInfo) × (lookup k cm'.nodes ≡ some n')
        × (n' ≡ record n { status = n'.status })
        × ((dead_node_timeout < now - n.last_heartbeat → n'.status ≡ dead)
            × (now - n.last_heartbeat ≤ dead_node_timeout → n'.status ≡ n.status)))
      × ((address : Str) → LiveAt cm'.nodes k address → now - n.last_heartbeat ≤ dead_node_timeout)
unfolding check_dead_nodes age is_stale
check_dead_nodes-status now cm k n found = (
  (age now n, after, same, ((λ late. ground arith), (λ timely. ground arith))),
  λ address (n', at, alive, _). ground (arith, after),
)
  where
    after : lookup k (mark_dead now cm.nodes).1 ≡ some (age now n)
    after = ground (arith, lookup-mark_dead now k cm.nodes)

    same : age now n ≡ record n { status = (age now n).status }
    same = ground arith
