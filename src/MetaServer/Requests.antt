-- ===== src/MetaServer/Requests.antt =====
-- What a client is promised of `PutFile` and `DeleteFile`.
use sentinel_fs.Prelude.{
  ℕ, ◌≡◌, refl, sym, ap, subst, List, [], ◌∷◌, ◌++◌, map, none, some, Str, ok, err, Result, All,
  length, mem, lookup, if◌then◌else◌, min, inl, inr, Result-cases,
}
use sentinel_fs.ChunkManager.State.{ChunkManager, ChunkError}
use sentinel_fs.ChunkManager.Nodes.{healthy_nodes}
use sentinel_fs.ChunkManager.Placement.{ChunkPlacementInfo, allocate_chunks}
use sentinel_fs.ChunkManager.Placement.Replication.{PlacedFrom}
use sentinel_fs.ChunkManager.Placement.Allocation.{allocate_chunks-replicates}
use sentinel_fs.ChunkManager.Replicas.Deletion.{remove_chunks_lem}
use sentinel_fs.ChunkManager.Invariant.Steps.{Inv}
use sentinel_fs.Namespace.Paths.{clean_path}
use sentinel_fs.Namespace.Paths.Words.{IsWord, path_of}
use sentinel_fs.Namespace.Tree.{FileMeta, NsError}
use sentinel_fs.Namespace.Tree.View.{same_words}
use sentinel_fs.Namespace.Files
use sentinel_fs.Namespace.Files.{create_file}
use sentinel_fs.Namespace.Files.Contract.{stored, create_file_lem, delete_file_lem}
use sentinel_fs.MetaServer.Messages.{
  Server, Failure, PutFileRequest, ChunkPlacement, placement_of, new_file_meta, int_of_int32,
}
use sentinel_fs.MetaServer.FileRequests.{put_file, register_file, delete_file}

-- For a path in normal form and a well-formed state, when `PutFile` succeeds: the response has the
-- placements of the allocation, one for each chunk, each on min(3, healthy nodes) distinct healthy
-- nodes; and the file that is now found on that path has the path, size, chunk count and checksum of
-- the request, the replication factor 3, the time of its creation, and the ids of those placements as
-- its chunks, in order, while other paths show what they showed. When it fails, every path shows what
-- it showed.
pub put_file_lem :
    (sha256 : List ℕ → List ℕ) (dirs : List Str) (name : Str) (req : PutFileRequest)
    (now created_at : ℕ) (s : Server)
    → All IsWord (dirs ++ name ∷ [])
    → req.path ≡ path_of dirs name
    → Inv s.chunk_mgr
    → let r = put_file sha256 req now created_at s in
      let healthy = healthy_nodes now s.chunk_mgr.nodes in
      ((answer : List ChunkPlacement)
        → r.0 ≡ ok answer
        → (ps : List ChunkPlacementInfo) × (answer ≡ map placement_of ps)
          × (length ps ≡ int_of_int32 req.chunk_count)
          × PlacedFrom sha256 req.path s.chunk_mgr.nodes healthy (min 3 (length healthy)) 0 ps
          × ((path : Str)
              → stored r.1.namespace path ≡ (
                  if same_words (dirs ++ name ∷ []) (clean_path path)
                  then some (record {
                    path = req.path;
                    size = req.file_size;
                    chunk_count = int_of_int32 req.chunk_count;
                    replication_factor = 3;
                    checksum = req.checksum;
                    chunk_ids = map (λ p. p.chunk_id) ps;
                    created_at = created_at;
                  })
                  else stored s.namespace path)))
      × ((e : Failure)
          → r.0 ≡ err e
          → (path : Str) → stored r.1.namespace path ≡ stored s.namespace path)
unfolding put_file register_file new_file_meta
put_file_lem sha256 dirs name req now created_at s words at v = elim (Result-cases allocated) [
  | inl (e, failed) ↦ rw (failed, put_file) ((λ answer h. cc h), λ e h path. refl)
  | inr (ps, done) ↦ elim (Result-cases (created ps)) [
    | inl (e, failed) ↦
        rw (done, put_file, failed, register_file)
          ((λ answer h. cc h), λ e' h path. ap (λ ns. stored ns path) ((contract ps).1 e failed))
    | inr (u, made) ↦
        rw (done, put_file, made, register_file)
          (
            (λ answer h.
                let r =
                  allocate_chunks-replicates sha256 req.path req.file_size
                    (int_of_int32 req.chunk_count) now s.chunk_mgr ps v.registry done in
                (ps, cc h, r.0, r.1, (contract ps).0 made)),
            λ e h. cc h,
          )
  ]
]
  where
    allocated : Result ChunkError (List ChunkPlacementInfo) × ChunkManager
    allocated =
        allocate_chunks sha256 req.path req.file_size (int_of_int32 req.chunk_count) now s.chunk_mgr

    created : List ChunkPlacementInfo → Result NsError (Unit {0}) × Files.Namespace
    created ps = create_file req.path (new_file_meta req created_at ps) s.namespace

    contract :
        (ps : List ChunkPlacementInfo)
        → ((created ps).0 ≡ ok tt
            → (path : Str)
            → stored (created ps).1 path ≡ (
                if same_words (dirs ++ name ∷ []) (clean_path path)
                then some (new_file_meta req created_at ps)
                else stored s.namespace path))
          × ((e : NsError) → (created ps).0 ≡ err e → (created ps).1 ≡ s.namespace)
    contract ps =
        subst
          (λ p.
            let r = create_file p (new_file_meta req created_at ps) s.namespace in
            (r.0 ≡ ok tt
              → (path : Str)
              → stored r.1 path ≡ (
                  if same_words (dirs ++ name ∷ []) (clean_path path)
                  then some (new_file_meta req created_at ps)
                  else stored s.namespace path))
            × ((e : NsError) → r.0 ≡ err e → r.1 ≡ s.namespace))
          (sym at) (create_file_lem dirs name (new_file_meta req created_at ps) s.namespace words)

-- For a path in normal form and a well-formed state, when `DeleteFile` succeeds: the path named a
-- file; now no path that names it shows a file, while other paths show what they showed; and the
-- records of its chunks are gone, while those of other chunks stay. When it fails, the path named no
-- file and nothing changes.
pub delete_file-removes :
    (dirs : List Str) (name : Str) (s : Server)
    → All IsWord (dirs ++ name ∷ [])
    → Inv s.chunk_mgr
    → let r = delete_file (path_of dirs name) s in
      (r.0 ≡ ok tt
        → (f : FileMeta) × (stored s.namespace (path_of dirs name) ≡ some f)
          × ((path : Str)
              → stored r.1.namespace path ≡ (
                  if same_words (dirs ++ name ∷ []) (clean_path path)
                  then none
                  else stored s.namespace path))
          × ((d : Str)
              → lookup d r.1.chunk_mgr.chunks
                ≡ (if mem d f.chunk_ids then none else lookup d s.chunk_mgr.chunks)))
      × ((e : Failure)
          → r.0 ≡ err e
          → (stored s.namespace (path_of dirs name) ≡ none)
            × (r.1.namespace ≡ s.namespace)
            × (r.1.chunk_mgr ≡ s.chunk_mgr))
unfolding delete_file
delete_file-removes dirs name s words v = elim (Result-cases removed) [
  | inl (e, failed) ↦
      rw (failed, delete_file)
        ((λ h. cc h), λ e' h. (((contract.1 e failed).0), (contract.1 e failed).1, refl))
  | inr (f, done) ↦
      rw (done, delete_file)
        (
          (λ h. (
            f,
            (contract.0 f done).0,
            (contract.0 f done).1,
            (remove_chunks_lem f.chunk_ids s.chunk_mgr v).0,
          )),
          λ e h. cc h,
        )
]
  where
    removed : Result NsError FileMeta × Files.Namespace
    removed = Files.delete_file (path_of dirs name) s.namespace

    contract :
        ((f : FileMeta)
          → removed.0 ≡ ok f
          → (stored s.namespace (path_of dirs name) ≡ some f)
            × ((path : Str)
                → stored removed.1 path ≡ (
                    if same_words (dirs ++ name ∷ []) (clean_path path)
                    then none
                    else stored s.namespace path)))
        × ((e : NsError)
            → removed.0 ≡ err e
            → (stored s.namespace (path_of dirs name) ≡ none) × (removed.1 ≡ s.namespace))
    contract = delete_file_lem dirs name s.namespace words
