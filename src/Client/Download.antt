-- ===== src/Client/Download.antt =====
-- The download of internal/client/transfer.go: `downloadChunks`. The goroutines fetch at any time and
-- append what they got in any order, which is an argument.
pub mod Ordered
use sentinel_fs.Prelude.{
  ℕ, List, [], ◌∷◌, ◌++◌, map, Bool, false, ◌||◌, if◌then◌else◌, Option, none, some, Str, Int64,
  slt64,
}
use sentinel_fs.MetaServer.Messages.{ChunkPlacement, int_of_int32}
use sentinel_fs.Client.Upload.{short_id}
use sentinel_fs.Sorting.{sort_slice}

pub record ChunkResult : Type 0 where
  pub index : Int64
  pub contents : List ℕ

-- The goroutine of one location, where `fetch` is `fetchChunkFromNodes`.
unfoldable pub download_chunk :
    (Str → List Str → Option (List ℕ)) → ChunkPlacement → Option ChunkResult
unfolding int_of_int32
download_chunk fetch l = elim (fetch l.chunk_id l.node_addresses) [
  | none ↦ none
  | some contents ↦ some (record { index = int_of_int32 l.chunk_index; contents = contents })
]

-- A goroutine that fetched its chunk panics in its message of progress, `l.ChunkId[:12]`.
unfoldable pub panics_download : (Str → List Str → Option (List ℕ)) → List ChunkPlacement → Bool
unfolding short_id
panics_download fetch [] = false
panics_download fetch (l ∷ ls) =
    elim (fetch l.chunk_id l.node_addresses) [ none ↦ false | some c ↦ short_id l.chunk_id ]
    || panics_download fetch ls

-- The results of all goroutines in the order of the locations, or none if one of them failed.
unfoldable pub download_all :
    (Str → List Str → Option (List ℕ)) → List ChunkPlacement → Option (List ChunkResult)
unfolding download_chunk
download_all fetch [] = some []
download_all fetch (l ∷ ls) =
    let rest = download_all fetch ls in
    elim (download_chunk fetch l) [
      | none ↦ none
      | some r ↦ elim rest [ none ↦ none | some rs ↦ some (r ∷ rs) ]
    ]

-- The order of `sort.Slice`.
unfoldable pub by_index : ChunkResult → ChunkResult → Bool
by_index a b = slt64 a.index b.index

-- The loop that joins the results.
unfoldable pub join_results : List ChunkResult → List ℕ
join_results [] = []
join_results (r ∷ rs) = r.contents ++ join_results rs

-- What `downloadChunks` returns; none if it fails, or if a goroutine panics, which ends the client.
unfoldable pub download_chunks :
    (List ChunkResult → List ChunkResult)
    → (Str → List Str → Option (List ℕ))
    → List ChunkPlacement
    → Option (List ℕ)
unfolding download_all join_results panics_download
download_chunks arrive fetch locations =
    if panics_download fetch locations then none else (elim (download_all fetch locations) [
      | none ↦ none
      | some results ↦ some (join_results (sort_slice by_index (arrive results)))
    ])
