-- ===== src/DataNode/Store/Accounting.antt =====
-- `usedBytes` against the chunks that are stored.
use sentinel_fs.Prelude.{
  ℕ, ◌+◌, ◌%◌, ◌^◌, ◌≡◌, List, [], ◌∷◌, Bool, ◌||◌, none, some, Str, bytes, ◌==◌, Map, lookup, put,
  delete, add64, sub64, not, ok, err, arith, inl, inr, Option-cases, Bool-cases,
}
use sentinel_fs.DataNode.Store.Filesystem.{Disk, ext}
use sentinel_fs.DataNode.Store.{
  StoredChunk, ChunkStore, StoreError, Write, stored_chunk, keep_chunk, store_chunk, delete_chunk,
  DirFile, load_entry, chunk_path,
}

-- The bytes of all chunks that are stored.
abbrev pub total : Map StoredChunk → ℕ
total [] = 0
total ((k, c) ∷ m) = c.size + total m

-- The bytes of chunk `k`, if there is one.
abbrev pub size_at : Str → Map StoredChunk → ℕ
size_at k m = elim (lookup k m) [ none ↦ 0 | some c ↦ c.size ]

total-put :
    (k : Str) (c : StoredChunk) (m : Map StoredChunk)
    → total (put k c m) + size_at k m ≡ total m + c.size
unfolding put lookup
total-put k c [] = ground arith
total-put k c ((j, d) ∷ m) = ground (arith, total-put k c m)

total-delete : (k : Str) (m : Map StoredChunk) → total (delete k m) + size_at k m ≡ total m
unfolding delete lookup
total-delete k [] = ground arith
total-delete k ((j, d) ∷ m) = ground (arith, total-delete k m)

-- The counter is the number of bytes stored and `extra`, modulo 2 ^ 64.
abbrev pub Counts : ChunkStore → ℕ → Type 0
Counts cs extra = cs.used_bytes % 2 ^ 64 ≡ (total cs.chunks + extra) % 2 ^ 64

module _ (sha256 : List ℕ → List ℕ) where
  -- Storing contents under an id that was taken leaves the old size in the counter.
  keep_chunk-Counts :
      (id path : Str) (contents : List ℕ) (cs : ChunkStore) (extra : ℕ)
      → Counts cs extra
      → Counts (keep_chunk sha256 id path contents cs) (extra + size_at id cs.chunks)
  unfolding keep_chunk add64
  keep_chunk-Counts id path contents cs extra h =
      omega (arith, total-put id (stored_chunk sha256 id path contents) cs.chunks)

  load_entry-Counts :
      (e : DirFile) (cs : ChunkStore) (extra : ℕ)
      → Counts cs extra
      → (more : ℕ) × Counts (load_entry sha256 e cs) more
  unfolding load_entry
  load_entry-Counts e cs extra h =
      elim (Bool-cases (e.is_dir || not (ext e.name == bytes ".chunk"))) [
        | inl skips ↦ rw skips (extra, h)
        | inr reads ↦ elim (Option-cases e.contents) [
          | inl out ↦ rw (reads, out) (extra, h)
          | inr (contents, is) ↦ rw (reads, is) (_, keep_chunk-Counts _ _ contents cs extra h)
        ]
      ]

  -- Storing and deleting keep the counter of used bytes within a surplus: modulo 2 ^ 64 it is the
  -- size of all stored chunks and `extra`, where a successful store of an id that was taken adds the
  -- old size of that chunk to `extra`, and every other call leaves `extra` as it was.
  pub used_bytes-surplus :
      (w : Write) (fails : Bool) (id : Str) (contents : List ℕ) (checksum : Str) (cs : ChunkStore)
      (disk : Disk) (extra : ℕ)
      → Counts cs extra
      → let stored = store_chunk sha256 w id contents checksum cs disk in
        (stored.0 ≡ ok tt → Counts stored.1 (extra + size_at id cs.chunks))
        × ((e : StoreError) → stored.0 ≡ err e → Counts stored.1 extra)
        × Counts (delete_chunk fails id cs disk).1 extra
  unfolding store_chunk delete_chunk sub64
  used_bytes-surplus w fails id contents checksum cs disk extra h = (
    (λ done. ground (arith, keep_chunk-Counts id (chunk_path cs.data_dir id) contents cs extra h)),
    (λ e failed. ground arith),
    removed,
  )
    where
      deleted :
          (c : StoredChunk)
          → lookup id cs.chunks ≡ some c
          → total (delete id cs.chunks) + c.size ≡ total cs.chunks
      deleted c found = ground (arith, found, total-delete id cs.chunks)

      removed : Counts (delete_chunk fails id cs disk).1 extra
      removed = elim (Option-cases (lookup id cs.chunks)) [
        | inl out ↦ rw (out, delete_chunk) h
        | inr (c, found) ↦ elim (Bool-cases fails) [
          | inl failing ↦ rw (found, failing, delete_chunk) h
          | inr fine ↦ rw (found, fine, delete_chunk) (omega (arith, deleted c found, h))
        ]
      ]
