-- ===== src/Examples/Cluster.antt =====
-- A cluster of four data nodes that stores one file of one chunk.
use sentinel_fs.Prelude.{
  ℕ, ◌≡◌, refl, List, [], ◌∷◌, none, some, Str, bytes, ◌==◌, itoa, mem, insert, lookup, put, modify,
  slt64, sub64, keys, ok,
}
use sentinel_fs.Chunks.{generate_chunk_id, hex}
use sentinel_fs.Float64.{flt, feq}
use sentinel_fs.ChunkManager.State.{DataNodeInfo, ChunkMeta, ChunkManager, new_chunk_manager}
use sentinel_fs.ChunkManager.Nodes.{
  register_node, find_address, node_name, fresh_node, healthy_nodes, can_receive,
}
use sentinel_fs.ChunkManager.Placement.{
  ChunkPlacementInfo, allocate_chunks, place_chunks, place_chunk, select_nodes, less, load,
  size_of_chunk, add_to_targets,
}
use sentinel_fs.ChunkManager.Replicas.{add_chunk_to_node}
use sentinel_fs.ChunkManager.Locations.{
  ChunkLocationInfo, get_chunk_locations, chunk_location, location_of, live_replicas,
}
use sentinel_fs.Sorting.{sort_slice}
use sentinel_fs.ChunkManager.Invariant.Registry.{NodesInv}
use sentinel_fs.ChunkManager.Invariant.Held.{ChunksInv}
use sentinel_fs.ChunkManager.Invariant.Steps.{
  AllOnRegistered, Inv, Reach, registers, allocates, adds, start, next,
}
use sentinel_fs.ChunkManager.Invariant.Reach.{Reach-Inv}

-- A stand-in for SHA-256.
abbrev pub identity_hash : List ℕ → List ℕ
identity_hash contents = contents

abbrev pub address_a : Str
address_a = bytes "a:9001"

abbrev pub path_a : Str
path_a = bytes "/a"

abbrev pub one_node : ChunkManager
one_node = (register_node address_a 1000 5 new_chunk_manager).1

abbrev pub two_nodes : ChunkManager
two_nodes = (register_node (bytes "b:9001") 1000 5 one_node).1

abbrev pub three_nodes : ChunkManager
three_nodes = (register_node (bytes "c:9001") 1000 5 two_nodes).1

abbrev pub four_nodes : ChunkManager
four_nodes = (register_node (bytes "d:9001") 1000 5 three_nodes).1

abbrev pub cluster : ChunkManager
cluster = (allocate_chunks identity_hash path_a 100 1 7 four_nodes).1

abbrev pub four_nodes-Reach : Reach identity_hash four_nodes
four_nodes-Reach =
    next
      (next (next (next start (registers address_a 1000 5)) (registers (bytes "b:9001") 1000 5))
        (registers (bytes "c:9001") 1000 5))
      (registers (bytes "d:9001") 1000 5)

abbrev pub cluster-Reach : Reach identity_hash cluster
cluster-Reach = next four_nodes-Reach (allocates path_a 100 1 7)

abbrev copied : ChunkManager
copied = add_chunk_to_node (bytes "2f613a6368756e6b") (bytes "node-4") cluster

abbrev copied-Reach : Reach identity_hash copied
copied-Reach = next cluster-Reach (adds (bytes "2f613a6368756e6b") (bytes "node-4"))

Reach-Inv_example :
    NodesInv copied.nodes × (AllOnRegistered copied-Reach → ChunksInv copied.nodes copied.chunks)
Reach-Inv_example = Reach-Inv identity_hash copied-Reach

pub four_nodes-Inv : Inv four_nodes
four_nodes-Inv =
    let (registry, records) = Reach-Inv identity_hash four_nodes-Reach in
    record { registry = registry; records = records (((((tt, tt), tt), tt), tt)) }

pub cluster-Inv : Inv cluster
cluster-Inv =
    let (registry, records) = Reach-Inv identity_hash cluster-Reach in
    record { registry = registry; records = records (((((tt, tt), tt), tt), tt), tt) }

abbrev pub chunk_a : Str
chunk_a = bytes "2f613a6368756e6b"

abbrev pub replicas_a : List Str
replicas_a = bytes "node-1" ∷ bytes "node-2" ∷ bytes "node-3" ∷ []

abbrev pub meta_a : ChunkMeta
meta_a = record {
  chunk_id = chunk_a;
  chunk_index = 0;
  size = 100;
  checksum = [];
  node_ids = replicas_a;
  file_path = path_a;
}

abbrev pub placement_a : ChunkPlacementInfo
placement_a = record {
  chunk_id = chunk_a;
  chunk_index = 0;
  node_ids = replicas_a;
  node_addresses = address_a ∷ bytes "b:9001" ∷ bytes "c:9001" ∷ [];
}

abbrev pub node_a : DataNodeInfo
node_a = record (fresh_node (bytes "node-1") address_a 1000 5) { chunks = chunk_a ∷ [] }

four_nodes-keys :
    keys four_nodes.nodes ≡ bytes "node-1" ∷ bytes "node-2" ∷ bytes "node-3" ∷ bytes "node-4" ∷ []
unfolding register_node new_chunk_manager find_address node_name fresh_node lookup put ◌==◌ itoa
four_nodes-keys = refl

pub allocated : (allocate_chunks identity_hash path_a 100 1 7 four_nodes).0 ≡ ok (placement_a ∷ [])
unfolding register_node new_chunk_manager find_address node_name fresh_node lookup put ◌==◌ itoa
    allocate_chunks healthy_nodes can_receive place_chunks place_chunk select_nodes sort_slice less
    load flt feq generate_chunk_id hex
allocated = refl

pub meta_a-recorded : lookup chunk_a cluster.chunks ≡ some meta_a
unfolding register_node new_chunk_manager find_address node_name fresh_node lookup put ◌==◌ itoa
    allocate_chunks healthy_nodes can_receive place_chunks place_chunk select_nodes sort_slice less
    load flt feq generate_chunk_id hex size_of_chunk slt64 sub64 add_to_targets insert modify mem
meta_a-recorded = refl

pub node_a-registered : lookup (bytes "node-1") cluster.nodes ≡ some node_a
unfolding register_node new_chunk_manager find_address node_name fresh_node lookup put ◌==◌ itoa
    allocate_chunks healthy_nodes can_receive place_chunks place_chunk select_nodes sort_slice less
    load flt feq generate_chunk_id hex add_to_targets insert modify mem
node_a-registered = refl

abbrev pub node_d : DataNodeInfo
node_d = fresh_node (bytes "node-4") (bytes "d:9001") 1000 5

pub node_d-registered : lookup (bytes "node-4") cluster.nodes ≡ some node_d
unfolding register_node new_chunk_manager find_address node_name fresh_node lookup put ◌==◌ itoa
    allocate_chunks healthy_nodes can_receive place_chunks place_chunk select_nodes sort_slice less
    load flt feq generate_chunk_id hex add_to_targets insert modify mem
node_d-registered = refl

pub unknown_address : find_address (bytes "e:9001") cluster.nodes ≡ none
unfolding register_node new_chunk_manager find_address node_name fresh_node lookup put ◌==◌ itoa
    allocate_chunks healthy_nodes can_receive place_chunks place_chunk select_nodes sort_slice less
    load flt feq generate_chunk_id hex add_to_targets insert modify mem
unknown_address = refl

abbrev pub location_a : ChunkLocationInfo
location_a = record {
  chunk_id = chunk_a;
  chunk_index = 0;
  node_addresses = address_a ∷ bytes "b:9001" ∷ bytes "c:9001" ∷ [];
  node_ids = replicas_a;
}

pub located_a : get_chunk_locations cluster (chunk_a ∷ []) ≡ ok (location_a ∷ [])
unfolding register_node new_chunk_manager find_address node_name fresh_node lookup put ◌==◌ itoa
    allocate_chunks healthy_nodes can_receive place_chunks place_chunk select_nodes sort_slice less
    load flt feq generate_chunk_id hex add_to_targets insert modify mem get_chunk_locations
    chunk_location location_of live_replicas
located_a = refl
