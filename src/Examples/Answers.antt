-- ===== src/Examples/Answers.antt =====
-- The theorems on the chunk manager, on the cluster of four nodes.
use sentinel_fs.Prelude.{
  ℕ, ◌-◌, ◌^◌, ◌≡◌, ◌≤◌, ◌<◌, ◌↔◌, refl, List, [], ◌∷◌, ◌++◌, true, false, ◌||◌, none, some, Str,
  bytes, ◌==◌, mem, lookup, keys, values, length, ok, All, min, if◌then◌else◌, arith,
}
use mathlib.Core.List.{Perm}
use sentinel_fs.Float64.{Float64, flt, is_nan}
use sentinel_fs.Config.{chunk_size, dead_node_timeout, dead, healthy, critical, risk_to_status}
use sentinel_fs.Config.Risk.{severity, risk_to_status_mono}
use sentinel_fs.ChunkManager.State.{DataNodeInfo, ChunkMeta}
use sentinel_fs.ChunkManager.Nodes.{register_node, fresh_node, healthy_nodes, check_dead_nodes}
use sentinel_fs.ChunkManager.Placement.{
  ChunkPlacementInfo, Candidate, allocate_chunks, select_nodes, size_of_chunk,
}
use sentinel_fs.ChunkManager.Placement.Replication.{PlacedFrom}
use sentinel_fs.ChunkManager.Placement.Allocation.{
  allocate_chunks-replicates, allocate_chunks_error,
}
use sentinel_fs.ChunkManager.Placement.Ready.{HasReady}
use sentinel_fs.ChunkManager.Placement.Choice.{
  NotBefore, select_nodes_best, size_of_chunk-total, total_size,
}
use sentinel_fs.ChunkManager.Locations.{ChunkLocationInfo, get_chunk_locations}
use sentinel_fs.ChunkManager.Locations.Live.{Locations, LiveAt, HasLive, get_chunk_locations-live}
use sentinel_fs.ChunkManager.Locations.Found.{get_chunk_locations_found, check_dead_nodes-status}
use sentinel_fs.ChunkManager.Registration.{register_node_new, register_node_again}
use sentinel_fs.ChunkManager.Replicas.{remove_chunks}
use sentinel_fs.ChunkManager.Replicas.Deletion.{remove_chunks_lem}
use sentinel_fs.ChunkManager.Replicas.Migration.{moved, moved_replicas}
use sentinel_fs.ChunkManager.Invariant.Held.{holds}
use sentinel_fs.ChunkManager.Stats.{get_cluster_stats}
use sentinel_fs.ChunkManager.Stats.Partition.{get_cluster_stats-counts}
use sentinel_fs.Examples.Cluster.{
  identity_hash, path_a, address_a, chunk_a, replicas_a, meta_a, placement_a, node_a, four_nodes,
  cluster, four_nodes-Inv, cluster-Inv, allocated, meta_a-recorded, node_a-registered,
  node_d-registered, unknown_address, node_d, location_a, located_a,
}

allocate_chunks-replicates_example :
    PlacedFrom identity_hash path_a four_nodes.nodes
      (healthy_nodes 7 four_nodes.nodes)
      (min 3 (length (healthy_nodes 7 four_nodes.nodes)))
      0
      (placement_a ∷ [])
allocate_chunks-replicates_example =
    (allocate_chunks-replicates identity_hash path_a 100 1 7 four_nodes (placement_a ∷ [])
      four_nodes-Inv.registry allocated).1

allocate_chunks_error_example :
    ((ps : List ChunkPlacementInfo) × ((allocate_chunks identity_hash path_a 100 1 7 four_nodes).0
        ≡ ok ps))
    ↔ (HasReady 7 four_nodes.nodes × (1 ≤ 2 ^ 45))
allocate_chunks_error_example =
    (allocate_chunks_error identity_hash path_a 100 1 7 four_nodes
      four_nodes-Inv.registry.keys_distinct).0

-- The same node at two risks.
abbrev candidates : List Candidate
candidates =
    (bytes "node-1", node_a)
    ∷ (bytes "node-5", record node_a { risk_score = 4602678819172646912 })
    ∷ []

select_nodes_best_example :
    let chosen = select_nodes candidates 1 in
    (rest : List Candidate) × Perm (chosen ++ rest) candidates
    × (length chosen ≡ min 1 (length candidates))
    × All (λ c. All (λ u. NotBefore u c) rest) chosen
unfolding fresh_node is_nan
select_nodes_best_example = select_nodes_best candidates 1 (refl, (refl, tt))

size_of_chunk-total_example :
    (total_size 5000000 2 0 ≡ 5000000)
    × ((i : ℕ) → i < 2 → (0 < size_of_chunk 5000000 i) × (size_of_chunk 5000000 i ≤ chunk_size))
size_of_chunk-total_example =
    size_of_chunk-total 5000000 2 (omega arith) (omega arith) (omega arith)

get_chunk_locations-live_example : Locations cluster (chunk_a ∷ []) (location_a ∷ [])
get_chunk_locations-live_example =
    get_chunk_locations-live cluster (chunk_a ∷ []) (location_a ∷ []) located_a

get_chunk_locations_found_example :
    ((locs : List ChunkLocationInfo) × (get_chunk_locations cluster (chunk_a ∷ []) ≡ ok locs))
    ↔ All (HasLive cluster) (chunk_a ∷ [])
get_chunk_locations_found_example = get_chunk_locations_found cluster (chunk_a ∷ [])

check_dead_nodes-status_example :
    let now : ℕ = 7 in
    let cm' = (check_dead_nodes now cluster).1 in
    ((n' : DataNodeInfo) × (lookup (bytes "node-1") cm'.nodes ≡ some n')
      × (n' ≡ record node_a { status = n'.status })
      × ((dead_node_timeout < now - 5 → n'.status ≡ dead)
          × (now - 5 ≤ dead_node_timeout → n'.status ≡ node_a.status)))
    × ((address : Str) → LiveAt cm'.nodes (bytes "node-1") address → now - 5 ≤ dead_node_timeout)
unfolding fresh_node
check_dead_nodes-status_example =
    check_dead_nodes-status 7 cluster (bytes "node-1") node_a node_a-registered

register_node_new_example :
    let r = register_node (bytes "e:9001") 1000 9 cluster in
    (lookup r.0 cluster.nodes ≡ none)
    × (lookup r.0 r.1.nodes
        ≡ some (record {
          node_id = r.0;
          address = bytes "e:9001";
          capacity_bytes = 1000;
          used_bytes = 0;
          chunk_count = 0;
          status = healthy;
          risk_score = 0;
          last_heartbeat = 9;
          chunks = [];
        }))
    × ((j : Str) → (r.0 == j) ≡ false → lookup j r.1.nodes ≡ lookup j cluster.nodes)
    × (r.1.chunks ≡ cluster.chunks)
register_node_new_example =
    register_node_new (bytes "e:9001") 1000 9 cluster cluster-Inv.registry unknown_address

register_node_again_example :
    let r = register_node address_a 2000 9 cluster in
    (r.0 ≡ bytes "node-1")
    × (keys r.1.nodes ≡ keys cluster.nodes)
    × ((j : Str)
        → lookup j r.1.nodes ≡ (
            if bytes "node-1" == j
            then some (record node_a { last_heartbeat = 9 })
            else lookup j cluster.nodes))
    × (r.1.chunks ≡ cluster.chunks)
unfolding fresh_node
register_node_again_example =
    register_node_again address_a 2000 9 cluster (bytes "node-1") node_a cluster-Inv.registry
      node_a-registered refl

remove_chunks_lem_example :
    let cm' = (remove_chunks (chunk_a ∷ []) cluster).1 in
    ((d : Str)
      → lookup d cm'.chunks ≡ (if mem d (chunk_a ∷ []) then none else lookup d cluster.chunks))
    × ((d : Str) (m : ChunkMeta) (k : Str)
        → mem d (chunk_a ∷ []) ≡ true
        → lookup d cluster.chunks ≡ some m
        → mem k m.node_ids ≡ true
        → holds cm'.nodes k d ≡ false)
    × ((k d : Str) → mem d (chunk_a ∷ []) ≡ false → holds cm'.nodes k d ≡ holds cluster.nodes k d)
remove_chunks_lem_example = remove_chunks_lem (chunk_a ∷ []) cluster cluster-Inv

moved_replicas_example :
    let cm' = moved chunk_a (bytes "node-1") (bytes "node-4") cluster in
    (m' : ChunkMeta) × (lookup chunk_a cm'.chunks ≡ some m')
    × (m' ≡ record meta_a { node_ids = m'.node_ids })
    × (length m'.node_ids ≡ 3)
    × ((k : Str)
        → mem k m'.node_ids
          ≡ (if bytes "node-1" == k then false else (bytes "node-4" == k || mem k replicas_a)))
unfolding mem ◌==◌
moved_replicas_example =
    (moved_replicas chunk_a (bytes "node-1") (bytes "node-4") cluster meta_a node_d cluster-Inv
      meta_a-recorded refl refl node_d-registered).0

get_cluster_stats-counts_example :
    (get_cluster_stats cluster).total_nodes ≡ length (values cluster.nodes)
get_cluster_stats-counts_example = (get_cluster_stats-counts cluster).0

risk_to_status_mono_example :
    let r : Float64 = 4602678819172646912 in
    let s : Float64 = 4606281698874543309 in
    (is_nan r ≡ false → flt s r ≡ false → severity (risk_to_status r) ≤ severity (risk_to_status s))
    × (is_nan r ≡ true → risk_to_status r ≡ critical)
risk_to_status_mono_example = risk_to_status_mono 4602678819172646912 4606281698874543309
