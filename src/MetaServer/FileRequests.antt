-- ===== src/MetaServer/FileRequests.antt =====
-- The handlers of server.go for files: `PutFile`, `GetFile`, `DeleteFile`, `ListFiles`, `GetFileInfo`.
use sentinel_fs.Prelude.{
  ℕ, ◌+◌, List, [], ◌∷◌, map, Option, none, some, Str, bytes, ◌==◌, if◌then◌else◌, Result, ok, err,
  ◌>>=◌,
}
use sentinel_fs.ChunkManager.State.{ChunkManager}
use sentinel_fs.ChunkManager.Placement.{ChunkPlacementInfo, allocate_chunks}
use sentinel_fs.ChunkManager.Locations.{ChunkLocationInfo, get_chunk_locations, get_chunk_meta}
use sentinel_fs.ChunkManager.Replicas.{remove_chunks}
use sentinel_fs.Namespace.Tree.{FileMeta}
use sentinel_fs.Namespace.Files
use sentinel_fs.Namespace.Files.{Namespace, new_namespace, create_file, list_dir, get_all_files}
use sentinel_fs.MetaServer.Messages.{
  ChunkInfo, ChunkPlacement, Failure, FileInfo, PutFileRequest, Server, chunk_failure, chunk_info,
  file_info, int_of_int32, listed, location_message, namespace_failure, new_file_meta, nil_chunk,
  placement_of,
}

-- `PutFile` from the placements on.
unfoldable pub register_file :
    PutFileRequest
    → ℕ
    → List ChunkPlacementInfo
    → Server
    → Result Failure (List ChunkPlacement) × Server
register_file req created_at placements s =
    let (r, ns) = create_file req.path (new_file_meta req created_at placements) s.namespace in
    elim r [
      | err e ↦ (err (namespace_failure e), record s { namespace = ns })
      | ok _ ↦ (ok (map placement_of placements), record s { namespace = ns })
    ]

unfoldable pub put_file :
    (List ℕ → List ℕ)
    → PutFileRequest
    → ℕ
    → ℕ
    → Server
    → Result Failure (List ChunkPlacement) × Server
put_file sha256 req now created_at s =
    let (r, cm) =
      allocate_chunks sha256 req.path req.file_size (int_of_int32 req.chunk_count) now
        s.chunk_mgr in
    elim r [
      | err e ↦ (err (chunk_failure e), record s { chunk_mgr = cm })
      | ok placements ↦ register_file req created_at placements (record s { chunk_mgr = cm })
    ]

-- The records of the chunks that were located, from call `i` of `GetChunkMeta` on, where `at i` is the
-- chunk manager at that call.
unfoldable pub located_chunks :
    (ℕ → ChunkManager) → ℕ → List ChunkLocationInfo → Result Failure (List (Option ChunkInfo))
located_chunks at i [] = ok []
located_chunks at i (l ∷ ls) = elim (get_chunk_meta (at i) l.chunk_id) [
  | none ↦ err (nil_chunk l.chunk_id)
  | some c ↦ do rest ← located_chunks at (i + 1) ls; ok (some (chunk_info c) ∷ rest)
]

-- `GetFile` from the metadata on.
unfoldable pub locate_file :
    (ℕ → ChunkManager) → ChunkManager → FileMeta → Result Failure (FileInfo × List ChunkPlacement)
unfolding located_chunks file_info
locate_file at cm f = elim (get_chunk_locations cm f.chunk_ids) [
  | err e ↦ err (chunk_failure e)
  | ok locs ↦ do
    chunks ← located_chunks at 0 locs
    ok (file_info f chunks, map location_message locs)
]

-- `GetFile` in the namespace `ns`, where `cm` is the chunk manager when it locates the chunks, and
-- `at i` when it reads the record of location `i`: other requests may come in between.
unfoldable pub get_file_during :
    Str
    → Namespace
    → ChunkManager
    → (ℕ → ChunkManager)
    → Result Failure (FileInfo × List ChunkPlacement)
unfolding locate_file
get_file_during path ns cm at = elim (Files.get_file ns path) [
  | err e ↦ err (namespace_failure e)
  | ok f ↦ locate_file at cm f
]

-- Where no other request comes in between.
unfoldable pub get_file : Str → Server → Result Failure (FileInfo × List ChunkPlacement)
unfolding get_file_during
get_file path s = get_file_during path s.namespace s.chunk_mgr (λ i. s.chunk_mgr)

-- What `RemoveChunks` returns is not used.
unfoldable pub delete_file : Str → Server → Result Failure (Unit {0}) × Server
delete_file path s =
    let (r, ns) = Files.delete_file path s.namespace in
    elim r [
      | err e ↦ (err (namespace_failure e), record s { namespace = ns })
      | ok f ↦
          (ok tt, record { namespace = ns; chunk_mgr = (remove_chunks f.chunk_ids s.chunk_mgr).1 })
    ]

unfoldable pub list_files : Str → Server → Result Failure (List FileInfo)
unfolding listed
list_files path s =
    let path' = if path == [] then bytes "/" else path in
    elim (list_dir s.namespace path') [
      | err e ↦ err (namespace_failure e)
      | ok entries ↦ ok (map (listed path') entries)
    ]

-- A chunk without a record leaves a nil in its place.
unfoldable pub chunk_infos : ChunkManager → List Str → List (Option ChunkInfo)
chunk_infos cm [] = []
chunk_infos cm (cid ∷ cids) = elim (get_chunk_meta cm cid) [
  | none ↦ none ∷ chunk_infos cm cids
  | some c ↦ some (chunk_info c) ∷ chunk_infos cm cids
]

unfoldable pub get_file_info : Str → Server → Result Failure FileInfo
unfolding chunk_infos file_info
get_file_info path s = elim (Files.get_file s.namespace path) [
  | err e ↦ err (namespace_failure e)
  | ok f ↦ ok (file_info f (chunk_infos s.chunk_mgr f.chunk_ids))
]
