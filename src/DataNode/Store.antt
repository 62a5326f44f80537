-- ===== src/DataNode/Store.antt =====
-- internal/datanode/store.go. The disk is a map from file paths to contents; what the operating system
-- answers is an argument of each operation. `sha256` is `crypto/sha256.Sum256`.
pub mod Filesystem
pub mod Accounting
pub mod Integrity
use sentinel_fs.Prelude.{
  ℕ, ◌+◌, ◌-◌, ◌%◌, ◌^◌, List, [], ◌∷◌, ◌++◌, Bool, true, false, ◌&&◌, ◌||◌, Option, none, some,
  Str, bytes, ◌==◌, Map, lookup, put, delete, keys, length, take, Int64, add64, sub64, not,
  if◌then◌else◌, Result, ok, err,
}
use sentinel_fs.Chunks.{data_checksum}
use Filesystem.{Disk, join_path, ext}

pub record StoredChunk : Type 0 where
  pub chunk_id : Str
  pub size : Int64
  pub checksum : Str
  pub file_path : Str

pub record ChunkStore : Type 0 where
  pub data_dir : Str
  pub chunks : Map StoredChunk
  pub used_bytes : Int64

pub data StoreError : Type 0 where
  checksum_mismatch write_failed chunk_not_found read_failed corrupted delete_failed :
      Str → StoreError

unfoldable pub chunk_path : Str → Str → Str
chunk_path data_dir chunk_id = join_path data_dir (chunk_id ++ bytes ".chunk")

unfoldable pub get_all_chunk_ids : ChunkStore → List Str
get_all_chunk_ids cs = keys cs.chunks

unfoldable pub has_chunk : ChunkStore → Str → Bool
has_chunk cs chunk_id = elim (lookup chunk_id cs.chunks) [ none ↦ false | some _ ↦ true ]

-- int32(len(cs.chunks)), as the 32 bits
unfoldable pub chunk_count : ChunkStore → ℕ
chunk_count cs = length cs.chunks % 2 ^ 32

-- What `os.WriteFile` did: it wrote the file, or it failed and left the disk as given.
pub data Write : Type 0 where
  written : Write
  write_error : Disk → Write

module _ (sha256 : List ℕ → List ℕ) where
  -- The record of some contents.
  unfoldable pub stored_chunk : Str → Str → List ℕ → StoredChunk
  stored_chunk chunk_id path contents = record {
    chunk_id = chunk_id;
    size = length contents % 2 ^ 64;
    checksum = data_checksum sha256 contents;
    file_path = path;
  }

  unfoldable pub keep_chunk : Str → Str → List ℕ → ChunkStore → ChunkStore
  unfolding stored_chunk
  keep_chunk chunk_id path contents cs =
      let c = stored_chunk chunk_id path contents in
      record cs { chunks = put chunk_id c cs.chunks; used_bytes = add64 cs.used_bytes c.size }

  unfoldable pub store_chunk :
      Write
      → Str
      → List ℕ
      → Str
      → ChunkStore
      → Disk
      → Result StoreError (Unit {0}) × ChunkStore × Disk
  unfolding keep_chunk
  store_chunk w chunk_id contents expected_checksum cs disk =
      let actual = data_checksum sha256 contents in
      let path = chunk_path cs.data_dir chunk_id in
      if not (expected_checksum == []) && not (actual == expected_checksum)
      then (err (checksum_mismatch chunk_id), cs, disk)
      else (elim w [
        | write_error disk' ↦ (err (write_failed chunk_id), cs, disk')
        | written ↦ (ok tt, keep_chunk chunk_id path contents cs, put path contents disk)
      ])

  -- The check of what was read against the record.
  unfoldable pub verify_read : Str → StoredChunk → List ℕ → Result StoreError (List ℕ × Str)
  verify_read chunk_id meta contents =
      let checksum = data_checksum sha256 contents in
      if not (checksum == meta.checksum) then err (corrupted chunk_id) else ok (contents, checksum)

  -- `fails` is a read error other than a missing file.
  unfoldable pub get_chunk : Bool → Str → ChunkStore → Disk → Result StoreError (List ℕ × Str)
  unfolding verify_read
  get_chunk fails chunk_id cs disk = elim (lookup chunk_id cs.chunks) [
    | none ↦ err (chunk_not_found chunk_id)
    | some meta ↦
        (if fails then err (read_failed chunk_id) else (elim (lookup meta.file_path disk) [
          | none ↦ err (read_failed chunk_id)
          | some contents ↦ verify_read chunk_id meta contents
        ]))
  ]

-- `fails` is an error of `os.Remove` other than a missing file.
unfoldable pub delete_chunk :
    Bool → Str → ChunkStore → Disk → Result StoreError (Unit {0}) × ChunkStore × Disk
delete_chunk fails chunk_id cs disk = elim (lookup chunk_id cs.chunks) [
  | none ↦ (err (chunk_not_found chunk_id), cs, disk)
  | some meta ↦
      (if fails then (err (delete_failed chunk_id), cs, disk) else (
        ok tt,
        record cs {
          used_bytes = sub64 cs.used_bytes meta.size;
          chunks = delete chunk_id cs.chunks;
        },
        delete meta.file_path disk,
      ))
]

-- An entry of `os.ReadDir`: its name, whether it is a directory, and what `os.ReadFile` returns of it.
pub record DirFile : Type 0 where
  pub name : Str
  pub is_dir : Bool
  pub contents : Option (List ℕ)

-- The body of the loop of `loadExisting`.
unfoldable pub load_entry : (List ℕ → List ℕ) → DirFile → ChunkStore → ChunkStore
load_entry sha256 e cs =
    if e.is_dir || not (ext e.name == bytes ".chunk") then cs else (elim e.contents [
      | none ↦ cs
      | some contents ↦
          keep_chunk sha256 (take (length e.name - 6) e.name) (join_path cs.data_dir e.name)
            contents cs
    ])

unfoldable pub load_existing : (List ℕ → List ℕ) → List DirFile → ChunkStore → ChunkStore
unfolding load_entry
load_existing sha256 [] cs = cs
load_existing sha256 (e ∷ es) cs = load_existing sha256 es (load_entry sha256 e cs)

-- `NewChunkStore` on a directory with these entries; a directory that cannot be read or made gives
-- no entries.
unfoldable pub new_chunk_store : (List ℕ → List ℕ) → Str → List DirFile → ChunkStore
unfolding load_existing
new_chunk_store sha256 data_dir entries =
    load_existing sha256 entries (record { data_dir = data_dir; chunks = []; used_bytes = 0 })
