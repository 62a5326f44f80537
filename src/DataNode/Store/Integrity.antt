-- ===== src/DataNode/Store/Integrity.antt =====
-- What is read back is what was stored.
use sentinel_fs.Prelude.{
  ℕ, ◌≡◌, ◌↔◌, ◌⊎◌, refl, List, [], Bool, false, ◌&&◌, some, Str, ◌==◌, eq_iff, eq_refl, lookup,
  put, not, ok, err, arith, inl, inr, Option-cases, Bool-cases, lookup-put,
}
use sentinel_fs.Chunks.{data_checksum}
use sentinel_fs.DataNode.Store.Filesystem.{Disk}
use sentinel_fs.DataNode.Store.{
  StoredChunk, ChunkStore, StoreError, Write, written, write_error, stored_chunk, keep_chunk,
  store_chunk, get_chunk, verify_read, chunk_path,
}

module _ (sha256 : List ℕ → List ℕ) where
  -- A read succeeds exactly if the chunk has a record, its file can be read, and the checksum of the
  -- contents is the recorded one; it returns those contents and that checksum.
  pub get_chunk-intact :
      (fails : Bool) (id : Str) (cs : ChunkStore) (disk : Disk) (contents : List ℕ) (checksum : Str)
      → (get_chunk sha256 fails id cs disk ≡ ok (contents, checksum)) ↔ (
          (c : StoredChunk) × (lookup id cs.chunks ≡ some c)
          × (fails ≡ false)
          × (lookup c.file_path disk ≡ some contents)
          × (data_checksum sha256 contents ≡ c.checksum)
          × (checksum ≡ c.checksum))
  unfolding get_chunk verify_read
  get_chunk-intact fails id cs disk contents checksum = (
    (λ h. elim (Option-cases (lookup id cs.chunks)) [
      | inl out ↦ absurd (cc (rw (out, get_chunk) at h))
      | inr (c, found) ↦ elim (Option-cases (lookup c.file_path disk)) [
        | inl gone ↦ ground (arith, found, gone)
        | inr (d, at) ↦ ground (arith, found, at, eq_iff (data_checksum sha256 d) c.checksum)
      ]
    ]),
    λ (c, found, fine, at, sum, is). ground (arith, found, fine, at, sum, is, eq_refl c.checksum),
  )

  -- A store that succeeds was given no checksum or that of the contents; the chunk is then read back
  -- as its contents, whatever is on the disk at other paths, and the records of other ids stay. A
  -- store that fails leaves the records as they were.
  pub store_chunk-get_chunk :
      (w : Write) (id : Str) (contents : List ℕ) (checksum : Str) (cs : ChunkStore) (disk : Disk)
      → let r = store_chunk sha256 w id contents checksum cs disk in
        (r.0 ≡ ok tt
          → ((checksum ≡ []) ⊎ (checksum ≡ data_checksum sha256 contents))
            × (get_chunk sha256 false id r.1 r.2 ≡ ok (contents, data_checksum sha256 contents))
            × ((j : Str) → (id == j) ≡ false → lookup j r.1.chunks ≡ lookup j cs.chunks))
        × ((e : StoreError) → r.0 ≡ err e → r.1 ≡ cs)
  unfolding store_chunk keep_chunk get_chunk verify_read stored_chunk
  store_chunk-get_chunk written id contents checksum cs disk =
      elim (Bool-cases (not (checksum == []) && not (sum == checksum))) [
        | inl refused ↦ rw refused ((λ h. cc h), λ e h. refl)
        | inr accepted ↦ rw accepted (
          (λ h. (
            ground (arith, eq_iff sum checksum, eq_iff checksum []),
            read_back,
            (λ j ne. ground (arith, lookup-put id j c cs.chunks)),
          )),
          (λ e h. cc h),
        )
      ]
    where
      sum : Str
      sum = data_checksum sha256 contents

      path : Str
      path = chunk_path cs.data_dir id

      c : StoredChunk
      c = stored_chunk sha256 id path contents

      read_back :
          get_chunk sha256 false id (keep_chunk sha256 id path contents cs) (put path contents disk)
          ≡ ok (contents, sum)
      read_back = ground (
        arith,
        lookup-put id id c cs.chunks,
        lookup-put path path contents disk,
        eq_refl id,
        eq_refl path,
        eq_refl sum,
      )
  store_chunk-get_chunk (write_error disk') id contents checksum cs disk =
      elim (Bool-cases (not (checksum == []) && not (data_checksum sha256 contents == checksum))) [
        | inl refused ↦ rw refused ((λ h. cc h), λ e h. refl)
        | inr accepted ↦ rw accepted ((λ h. cc h), λ e h. refl)
      ]
