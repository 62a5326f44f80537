-- ===== src/Examples/Storage.antt =====
-- The theorems on the chunk store, on one chunk that is stored twice.
use sentinel_fs.Prelude.{
  ℕ, ◌+◌, ◌≡◌, ◌↔◌, ◌⊎◌, refl, List, [], ◌∷◌, false, some, Str, bytes, ◌==◌, ok, err, lookup, put,
  add64,
}
use sentinel_fs.Chunks.{data_checksum}
use sentinel_fs.DataNode.Store.Filesystem.{Disk}
use sentinel_fs.DataNode.Store.{
  StoredChunk, ChunkStore, StoreError, written, store_chunk, delete_chunk, get_chunk, keep_chunk,
  stored_chunk, new_chunk_store, load_existing,
}
use sentinel_fs.DataNode.Store.Accounting.{Counts, size_at, used_bytes-surplus}
use sentinel_fs.DataNode.Store.Integrity.{get_chunk-intact, store_chunk-get_chunk}
use sentinel_fs.Examples.Cluster.{identity_hash}

abbrev id : Str
id = bytes "c1"

abbrev old : List ℕ
old = 1 ∷ 2 ∷ []

abbrev contents : List ℕ
contents = 3 ∷ 4 ∷ 5 ∷ []

abbrev one_chunk : ChunkStore
one_chunk =
    keep_chunk identity_hash id (bytes "/d/c1.chunk") old
      (new_chunk_store identity_hash (bytes "/d") [])

abbrev no_checksum : Str
no_checksum = []

abbrev disk : Disk
disk = (bytes "/d/c1.chunk", old) ∷ []

counted : Counts one_chunk 0
unfolding keep_chunk new_chunk_store load_existing put lookup stored_chunk add64
counted = refl

used_bytes-surplus_example :
    let stored = store_chunk identity_hash written id contents no_checksum one_chunk disk in
    (stored.0 ≡ ok tt → Counts stored.1 (0 + size_at id one_chunk.chunks))
    × ((e : StoreError) → stored.0 ≡ err e → Counts stored.1 0)
    × Counts (delete_chunk false id one_chunk disk).1 0
used_bytes-surplus_example =
    used_bytes-surplus identity_hash written false id contents no_checksum one_chunk disk 0 counted

get_chunk-intact_example :
    (get_chunk identity_hash false id one_chunk disk ≡ ok (old, data_checksum identity_hash old))
    ↔ ((c : StoredChunk) × (lookup id one_chunk.chunks ≡ some c)
        × (false ≡ false)
        × (lookup c.file_path disk ≡ some old)
        × (data_checksum identity_hash old ≡ c.checksum)
        × (data_checksum identity_hash old ≡ c.checksum))
get_chunk-intact_example =
    get_chunk-intact identity_hash false id one_chunk disk old (data_checksum identity_hash old)

store_chunk-get_chunk_example :
    let r = store_chunk identity_hash written id contents no_checksum one_chunk disk in
    (r.0 ≡ ok tt
      → ((no_checksum ≡ []) ⊎ (no_checksum ≡ data_checksum identity_hash contents))
        × (get_chunk identity_hash false id r.1 r.2
            ≡ ok (contents, data_checksum identity_hash contents))
        × ((j : Str) → (id == j) ≡ false → lookup j r.1.chunks ≡ lookup j one_chunk.chunks))
    × ((e : StoreError) → r.0 ≡ err e → r.1 ≡ one_chunk)
store_chunk-get_chunk_example =
    store_chunk-get_chunk identity_hash written id contents no_checksum one_chunk disk
