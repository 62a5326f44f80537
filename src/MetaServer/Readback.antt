-- ===== src/MetaServer/Readback.antt =====
-- `GetFile` after `PutFile`.
use mathlib.Core.Option.{some-injective}
use sentinel_fs.Prelude.{
  ℕ, ◌≡◌, refl, sym, ◌∙◌, ap, subst, inl, inr, List, [], ◌∷◌, ◌++◌, map, true, Option, some, Str,
  eq_refl, Distinct, All, Result, ok, err, Result-cases, if◌then◌else◌, arith,
}
use sentinel_fs.ChunkManager.State.{ChunkManager, ChunkError}
use sentinel_fs.ChunkManager.Placement.{ChunkPlacementInfo, allocate_chunks}
use sentinel_fs.ChunkManager.Locations.{ChunkLocationInfo, get_chunk_locations}
use sentinel_fs.ChunkManager.Locations.Live.{get_chunk_locations-live}
use sentinel_fs.ChunkManager.Locations.Fresh.{ids_placed, located, allocate_chunks-located}
use sentinel_fs.ChunkManager.Invariant.Steps.{Inv, allocates}
use sentinel_fs.ChunkManager.Invariant.Reach.{Step-Inv}
use sentinel_fs.Namespace.Paths.{clean_path}
use sentinel_fs.Namespace.Paths.Words.{IsWord, path_of, clean_path-path_of}
use sentinel_fs.Namespace.Tree.{FileMeta, NsError}
use sentinel_fs.Namespace.Tree.View.{same_words}
use sentinel_fs.Namespace.Files
use sentinel_fs.Namespace.Files.{create_file}
use sentinel_fs.Namespace.Files.Contract.{stored}
use sentinel_fs.MetaServer.Messages.{
  Server, PutFileRequest, ChunkPlacement, ChunkInfo, FileInfo, placement_of, location_message,
  new_file_meta, file_info, int_of_int32,
}
use sentinel_fs.MetaServer.FileRequests.{
  put_file, register_file, get_file, get_file_during, locate_file,
}
use sentinel_fs.MetaServer.Requests.{put_file_lem}
use sentinel_fs.MetaServer.Steps.{put_file-chunk_mgr}
use sentinel_fs.MetaServer.Reached.{located_chunks-ok, shown, stored-shown}

-- A file whose chunks are located is answered with their locations.
get_file-located :
    (path : Str) (s : Server) (f : FileMeta) (locs : List ChunkLocationInfo)
    → Inv s.chunk_mgr
    → stored s.namespace path ≡ some f
    → get_chunk_locations s.chunk_mgr f.chunk_ids ≡ ok locs
    → (infos : List (Option ChunkInfo)) × (get_file path s
        ≡ ok (file_info f infos, map location_message locs))
unfolding get_file get_file_during locate_file
get_file-located path s f locs v seen found = by_file (Files.get_file s.namespace path) refl
  where
    by_file :
        (g : Result NsError FileMeta)
        → Files.get_file s.namespace path ≡ g
        → (infos : List (Option ChunkInfo)) × (get_file path s
            ≡ ok (file_info f infos, map location_message locs))
    by_file (err e) failed =
        absurd (cc (sym seen ∙ stored-shown s.namespace path ∙ ap shown failed))
    by_file (ok g) is =
        let same : g ≡ f =
          some-injective g f (sym (ap shown is) ∙ sym (stored-shown s.namespace path) ∙ seen) in
        let (infos, all) =
          located_chunks-ok s.chunk_mgr 0 f.chunk_ids locs v
            (get_chunk_locations-live s.chunk_mgr f.chunk_ids locs found) in
        (infos, rw (is ∙ ap ok same, get_file, get_file_during, locate_file, found, all) refl)

map-location_message :
    (ps : List ChunkPlacementInfo) → map location_message (map located ps) ≡ map placement_of ps
unfolding location_message placement_of
map-location_message [] = refl
map-location_message (p ∷ ps) = ap (λ l. placement_of p ∷ l) (map-location_message ps)

map-placement_of :
    (ps : List ChunkPlacementInfo) → map (λ a. a.chunk_id) (map placement_of ps) ≡ ids_placed ps
unfolding placement_of
map-placement_of [] = refl
map-placement_of (p ∷ ps) = ap (λ l. p.chunk_id ∷ l) (map-placement_of ps)

same_words_refl : (ws : List Str) → same_words ws ws ≡ true
unfolding same_words
same_words_refl [] = refl
same_words_refl (w ∷ ws) = ground (arith, eq_refl w, same_words_refl ws)

register_file-answer :
    (req : PutFileRequest) (created_at : ℕ) (ps : List ChunkPlacementInfo) (s : Server)
    (answer : List ChunkPlacement)
    → (register_file req created_at ps s).0 ≡ ok answer
    → answer ≡ map placement_of ps
unfolding register_file
register_file-answer req created_at ps s answer h =
    elim (Result-cases (create_file req.path (new_file_meta req created_at ps) s.namespace)) [
      | inl (e, failed) ↦ absurd (cc (rw (failed, register_file) at h))
      | inr (u, made) ↦ cc (rw (made, register_file) at h)
    ]

put_file-answer :
    (sha256 : List ℕ → List ℕ) (req : PutFileRequest) (now created_at : ℕ) (s : Server)
    (answer : List ChunkPlacement)
    → (put_file sha256 req now created_at s).0 ≡ ok answer
    → (ps : List ChunkPlacementInfo) × ((allocate_chunks sha256 req.path req.file_size
          (int_of_int32 req.chunk_count)
          now
          s.chunk_mgr).0
        ≡ ok ps)
      × (answer ≡ map placement_of ps)
unfolding put_file
put_file-answer sha256 req now created_at s answer h = elim (Result-cases allocated) [
  | inl (e, failed) ↦ absurd (cc (rw (failed, put_file) at h))
  | inr (ps, done) ↦ (
    ps,
    done,
    register_file-answer req created_at ps (record s { chunk_mgr = allocated.1 }) answer
        (rw (done, put_file) at h),
  )
]
  where
    allocated : Result ChunkError (List ChunkPlacementInfo) × ChunkManager
    allocated =
        allocate_chunks sha256 req.path req.file_size (int_of_int32 req.chunk_count) now s.chunk_mgr

-- For a path in normal form and a well-formed state, when `PutFile` succeeds and the chunks of its
-- answer have different ids: a `GetFile` of that path that comes next succeeds, its locations are the
-- placements of that answer, with the same indexes, nodes and addresses in the same order, and it
-- gives the size of the request.
pub get_file-put_file :
    (sha256 : List ℕ → List ℕ) (dirs : List Str) (name : Str) (req : PutFileRequest)
    (now created_at : ℕ) (s : Server) (answer : List ChunkPlacement)
    → All IsWord (dirs ++ name ∷ [])
    → req.path ≡ path_of dirs name
    → Inv s.chunk_mgr
    → Distinct (map (λ a. a.chunk_id) answer)
    → (put_file sha256 req now created_at s).0 ≡ ok answer
    → (info : FileInfo) × (get_file req.path (put_file sha256 req now created_at s).1
        ≡ ok (info, answer))
      × (info.path ≡ req.path)
      × (info.size ≡ req.file_size)
unfolding new_file_meta file_info
get_file-put_file sha256 dirs name req now created_at s answer words at v distinct done =
    let (ps, placed, same) = put_file-answer sha256 req now created_at s answer done in
    let (ps', same', _, _, shows) =
      (put_file_lem sha256 dirs name req now created_at s words at v).0 answer done in
    let f : FileMeta = new_file_meta req created_at ps' in
    let ids : ids_placed ps' ≡ ids_placed ps =
      sym (map-placement_of ps')
      ∙ ap (map (λ (a : ChunkPlacement). a.chunk_id)) (sym same' ∙ same)
      ∙ map-placement_of ps in
    let own : Distinct (ids_placed ps) =
      subst Distinct (ap (map (λ (a : ChunkPlacement). a.chunk_id)) same ∙ map-placement_of ps)
        distinct in
    let (infos, got) =
      get_file-located req.path after f (map located ps)
        (subst Inv (sym mgr) (Step-Inv sha256 (allocates req.path req.file_size count now) tt v))
        (shows req.path ∙ ap (λ b. if b then some f else stored s.namespace req.path) named)
        (ap (λ cm. get_chunk_locations cm (ids_placed ps')) mgr
          ∙ ap (get_chunk_locations allocated) ids
          ∙ allocate_chunks-located sha256 req.path req.file_size count now s.chunk_mgr ps
              v.registry own placed) in
    (
      file_info f infos,
      got ∙ ap (λ l. ok (file_info f infos, l)) (map-location_message ps ∙ sym same),
      refl,
      refl,
    )
  where
    after : Server
    after = (put_file sha256 req now created_at s).1

    count : ℕ
    count = int_of_int32 req.chunk_count

    allocated : ChunkManager
    allocated = (allocate_chunks sha256 req.path req.file_size count now s.chunk_mgr).1

    mgr : after.chunk_mgr ≡ allocated
    mgr = put_file-chunk_mgr sha256 req now created_at s

    named : same_words (dirs ++ name ∷ []) (clean_path req.path) ≡ true
    named =
        ap (λ p. same_words (dirs ++ name ∷ []) (clean_path p)) at
        ∙ ap (same_words (dirs ++ name ∷ [])) (clean_path-path_of dirs name words)
        ∙ same_words_refl (dirs ++ name ∷ [])
