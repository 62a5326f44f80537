-- ===== src/ChunkManager/Placement.antt =====
-- Placement of the chunks of a new file: `AllocateChunks` and `selectNodes` of chunk_manager.go.
pub mod Targets
pub mod Ready
pub mod Replication
pub mod Allocation
pub mod Choice
use sentinel_fs.Prelude.{
  ℕ, zero, suc, ◌+◌, ◌*◌, ◌%◌, ◌^◌, min, List, [], ◌∷◌, map, Bool, Option, none, some, Str, Map,
  lookup, put, modify, insert, length, take, Int64, sub64, slt64, ltb, leb, not, if◌then◌else◌,
  Result, ok, err,
}
use sentinel_fs.Float64.{flt, feq}
use sentinel_fs.Config.{chunk_size, default_replication_factor}
use sentinel_fs.Sorting.{sort_slice}
use sentinel_fs.Chunks.{generate_chunk_id}
use sentinel_fs.ChunkManager.State.{
  DataNodeInfo, ChunkMeta, ChunkManager, ChunkError, no_healthy_nodes, length_out_of_range,
}
use sentinel_fs.ChunkManager.Nodes.{healthy_nodes}

-- A node as the placement reads it: its pointer, and what the pointer shows at the time.
abbrev pub Candidate : Type 0
Candidate = Str × DataNodeInfo

-- The comparison of `selectNodes`: by risk, then by the number of chunks.
unfoldable pub less : Candidate → Candidate → Bool
less (_, a) (_, b) =
    if not (feq a.risk_score b.risk_score)
    then flt a.risk_score b.risk_score
    else ltb (length a.chunks) (length b.chunks)

-- What a list of pointers shows.
unfoldable pub load : Map DataNodeInfo → List Str → List Candidate
load nodes [] = []
load nodes (k ∷ ks) = elim (lookup k nodes) [
  | none ↦ load nodes ks
  | some n ↦ (k, n) ∷ load nodes ks
]

unfoldable pub select_nodes : List Candidate → ℕ → List Candidate
select_nodes candidates count =
    let sorted = sort_slice less candidates in
    take (if ltb (length sorted) count then length sorted else count) sorted

pub record ChunkPlacementInfo : Type 0 where
  pub chunk_id : Str
  pub chunk_index : ℕ
  pub node_ids : List Str
  pub node_addresses : List Str

-- size := min(chunkSize, fileSize - i * chunkSize), on int64.
unfoldable pub size_of_chunk : Int64 → ℕ → Int64
size_of_chunk file_size i =
    let remaining = sub64 file_size (i * chunk_size % 2 ^ 64) in
    if slt64 remaining chunk_size then remaining else chunk_size

-- for each target: n.Chunks[chunkID] = true
unfoldable pub add_to_targets : Str → List Candidate → Map DataNodeInfo → Map DataNodeInfo
add_to_targets chunk_id [] nodes = nodes
add_to_targets chunk_id ((k, _) ∷ targets) nodes =
    add_to_targets chunk_id targets
      (modify k (λ n. record n { chunks = insert chunk_id n.chunks }) nodes)

abbrev pub ids_of : List Candidate → List Str
ids_of = map λ c. c.1.node_id

abbrev pub addresses_of : List Candidate → List Str
addresses_of = map λ c. c.1.address

-- The pointers of 8 bytes that 2 ^ 48 bytes hold, what the runtime allocates at most on amd64.
abbrev pub max_pointers : ℕ
max_pointers = 2 ^ 45

module _ (sha256 : List ℕ → List ℕ) (file_path : Str) (file_size : Int64) where
  -- The body of the loop over the chunks.
  unfoldable pub place_chunk : List Str → ℕ → ℕ → ChunkManager → ChunkPlacementInfo × ChunkManager
  place_chunk healthy repl_factor i cm =
      let chunk_id = generate_chunk_id sha256 file_path i in
      let targets = select_nodes (load cm.nodes healthy) repl_factor in
      (
        record {
          chunk_id = chunk_id;
          chunk_index = i;
          node_ids = ids_of targets;
          node_addresses = addresses_of targets;
        },
        record {
          nodes = add_to_targets chunk_id targets cm.nodes;
          chunks =
              put chunk_id
                (record {
                  chunk_id = chunk_id;
                  chunk_index = i;
                  size = size_of_chunk file_size i;
                  checksum = [];
                  node_ids = ids_of targets;
                  file_path = file_path;
                })
                cm.chunks;
        },
      )

  -- The rounds that are left, the next index.
  unfoldable pub place_chunks :
      List Str → ℕ → ℕ → ℕ → ChunkManager → List ChunkPlacementInfo × ChunkManager
  place_chunks healthy repl_factor zero i cm = ([], cm)
  place_chunks healthy repl_factor (suc rounds) i cm =
      let (p, cm') = place_chunk healthy repl_factor i cm in
      let (ps, cm'') = place_chunks healthy repl_factor rounds (i + 1) cm' in (p ∷ ps, cm'')

  -- `make` panics on a length out of range: that is a negative one, which as a word is at least 2 ^ 63,
  -- or one of more pointers than an address space has room for.
  unfoldable pub allocate_chunks :
      Int64 → ℕ → ChunkManager → Result ChunkError (List ChunkPlacementInfo) × ChunkManager
  allocate_chunks chunk_count now cm =
      let healthy = healthy_nodes now cm.nodes in
      let repl_factor =
        if ltb (length healthy) default_replication_factor
        then length healthy
        else default_replication_factor in
      if leb (length healthy) 0
      then (err no_healthy_nodes, cm)
      else if ltb max_pointers chunk_count
      then (err length_out_of_range, cm)
      else (let (ps, cm') = place_chunks healthy repl_factor chunk_count 0 cm in (ok ps, cm'))
