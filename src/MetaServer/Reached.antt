-- ===== src/MetaServer/Reached.antt =====
-- What `GetFile` answers in every state that the server reaches.
use sentinel_fs.Prelude.{
  arith, ℕ, ◌≡◌, ◌≢◌, ◌↔◌, refl, sym, ◌∙◌, ap, List, [], ◌∷◌, Option, none, some, Str, ok, err,
  Result, All, subst, ◌+◌, Option-cases, Result-split, inl, inr, lookup,
}
use sentinel_fs.ChunkManager.State.{ChunkMeta, ChunkManager, ChunkError}
use sentinel_fs.ChunkManager.Locations.{ChunkLocationInfo, get_chunk_locations, get_chunk_meta}
use sentinel_fs.ChunkManager.Locations.Live.{Locations, HasLive, get_chunk_locations-live}
use sentinel_fs.ChunkManager.Locations.Found.{get_chunk_locations_found}
use sentinel_fs.ChunkManager.Invariant.Steps.{Inv}
use sentinel_fs.Namespace.Tree.{FileMeta, NsError}
use sentinel_fs.Namespace.Files
use sentinel_fs.Namespace.Files.{Namespace, create_file}
use sentinel_fs.Namespace.Files.Contract.{stored}
use sentinel_fs.MetaServer.Messages.{
  Server, Failure, nil_chunk, ChunkPlacement, ChunkInfo, FileInfo, chunk_info,
}
use sentinel_fs.MetaServer.FileRequests.{get_file, get_file_during, locate_file, located_chunks}
use sentinel_fs.MetaServer.Steps.{Serves, Serves-Inv}

pub located_chunks-ok :
    (cm : ChunkManager) (i : ℕ) (cids : List Str) (locs : List ChunkLocationInfo)
    → Inv cm
    → Locations cm cids locs
    → (infos : List (Option ChunkInfo)) × (located_chunks (λ j. cm) i locs ≡ ok infos)
unfolding located_chunks get_chunk_meta
located_chunks-ok cm i [] [] v h = ([], refl)
located_chunks-ok cm i [] (l ∷ ls) v h = absurd h
located_chunks-ok cm i (c ∷ cs) [] v h = absurd h
located_chunks-ok cm i (c ∷ cs) (l ∷ ls) v h =
    let (infos, rest) = located_chunks-ok cm (i + 1) cs ls v h.1 in
    let is : l.chunk_id ≡ c = h.0.id ∙ v.records.id_of_meta c h.0.meta h.0.recorded in
    (
      some (chunk_info h.0.meta) ∷ infos,
      rw (is, located_chunks, get_chunk_meta, h.0.recorded, rest) refl,
    )

-- The record of `c` is there in the first state and gone at one of the later reads.
abbrev pub Vanishes : ChunkManager → (ℕ → ChunkManager) → Str → Type 0
Vanishes cm at c =
    ((m : ChunkMeta) × (lookup c cm.chunks ≡ some m)) × ((i : ℕ) × (lookup c (at i).chunks ≡ none))

culprit : Result Failure (List (Option ChunkInfo)) → Str
culprit (err (nil_chunk c)) = c
culprit _ = []

located_chunks-Vanishes :
    (cm : ChunkManager) (at : ℕ → ChunkManager) (i : ℕ) (cids : List Str)
    (locs : List ChunkLocationInfo) (c : Str)
    → Inv cm
    → Locations cm cids locs
    → located_chunks at i locs ≡ err (nil_chunk c)
    → Vanishes cm at c
unfolding located_chunks get_chunk_meta culprit
located_chunks-Vanishes cm at i [] [] c v h e = absurd (cc e)
located_chunks-Vanishes cm at i [] (l ∷ ls) c v h e = absurd h
located_chunks-Vanishes cm at i (d ∷ ds) [] c v h e = absurd h
located_chunks-Vanishes cm at i (d ∷ ds) (l ∷ ls) c v h e =
    elim (Option-cases (lookup l.chunk_id (at i).chunks)) [
      | inl gone ↦
          let same : l.chunk_id ≡ c = ap culprit (rw (gone, located_chunks) at e) in
          let is : l.chunk_id ≡ d = h.0.id ∙ v.records.id_of_meta d h.0.meta h.0.recorded in
          (
            (h.0.meta, ap (λ x. lookup x cm.chunks) (sym same ∙ is) ∙ h.0.recorded),
            (i, ap (λ x. lookup x (at i).chunks) (sym same) ∙ gone),
          )
      | inr (m, there) ↦ elim (Result-split (located_chunks at (i + 1) ls)) [
        | inl (x, failed) ↦
            located_chunks-Vanishes cm at (i + 1) ds ls c v h.1
              (failed ∙ rw (there, located_chunks, failed) at e)
        | inr (infos, found) ↦ absurd (cc (rw (there, located_chunks, found) at e))
      ]
    ]

abbrev pub shown : Result NsError FileMeta → Option FileMeta
shown (err e) = none
shown (ok f) = some f

pub stored-shown : (ns : Namespace) (path : Str) → stored ns path ≡ shown (Files.get_file ns path)
stored-shown ns path = ground arith

get_file_now :
    (sha256 : List ℕ → List ℕ) (path : Str) (s : Server)
    → Serves sha256 s
    → (((answer : FileInfo × List ChunkPlacement) × (get_file path s ≡ ok answer)) ↔ (
        (f : FileMeta) × (stored s.namespace path ≡ some f)
        × All (HasLive s.chunk_mgr) f.chunk_ids))
      × ((c : Str) → get_file path s ≢ err (nil_chunk c))
unfolding get_file get_file_during
get_file_now sha256 path s r = by_file (Files.get_file s.namespace path) refl
  where
    Answers : Type 0
    Answers =
        (((answer : FileInfo × List ChunkPlacement) × (get_file path s ≡ ok answer)) ↔ (
          (f : FileMeta) × (stored s.namespace path ≡ some f)
          × All (HasLive s.chunk_mgr) f.chunk_ids))
        × ((c : Str) → get_file path s ≢ err (nil_chunk c))

    visible :
        (f : FileMeta) → Files.get_file s.namespace path ≡ ok f → stored s.namespace path ≡ some f
    visible f h = stored-shown s.namespace path ∙ ap shown h

    hidden :
        (e : NsError) → Files.get_file s.namespace path ≡ err e → stored s.namespace path ≡ none
    hidden e h = stored-shown s.namespace path ∙ ap shown h

    by_locations :
        (f : FileMeta)
        → Files.get_file s.namespace path ≡ ok f
        → (found : Result ChunkError (List ChunkLocationInfo))
        → get_chunk_locations s.chunk_mgr f.chunk_ids ≡ found
        → Answers
    by_locations f is (err e) failed =
        let seen : stored s.namespace path ≡ some f = visible f is in
        let missing : (f' : FileMeta) → f ≡ f' → All (HasLive s.chunk_mgr) f'.chunk_ids → ⊥ =
          λ f' same all.
            let (locs, ok_) =
              (get_chunk_locations_found s.chunk_mgr f.chunk_ids).1
                (subst (λ g. All (HasLive s.chunk_mgr) g.chunk_ids) (sym same) all) in
            cc in
        rw (is, get_file, get_file_during, locate_file, failed)
          (
            (
              λ (a, h). absurd (cc h),
              λ (f', same, all). absurd (missing f' (cc (sym seen ∙ same)) all),
            ),
            λ c h. absurd (cc h),
          )
    by_locations f is (ok locs) found =
        let live = get_chunk_locations-live s.chunk_mgr f.chunk_ids locs found in
        let (infos, all) =
          located_chunks-ok s.chunk_mgr 0 f.chunk_ids locs (Serves-Inv sha256 r) live in
        rw (is, get_file, get_file_during, locate_file, found, all)
          (
            (
              λ _. (
                f,
                visible f is,
                (get_chunk_locations_found s.chunk_mgr f.chunk_ids).0 (locs, found),
              ),
              λ _. (_, refl),
            ),
            λ c h. absurd (cc h),
          )

    by_file : (g : Result NsError FileMeta) → Files.get_file s.namespace path ≡ g → Answers
    by_file (err e) failed =
        rw (failed, get_file, get_file_during)
          (
            (λ (a, h). absurd (cc h), λ (f, h, all). absurd (cc (sym (hidden e failed) ∙ h))),
            λ c h. absurd (cc h),
          )
    by_file (ok f) is = by_locations f is (get_chunk_locations s.chunk_mgr f.chunk_ids) refl

get_file_during-Vanishes :
    (path : Str) (s : Server) (at : ℕ → ChunkManager) (c : Str)
    → Inv s.chunk_mgr
    → get_file_during path s.namespace s.chunk_mgr at ≡ err (nil_chunk c)
    → Vanishes s.chunk_mgr at c
unfolding get_file_during locate_file
get_file_during-Vanishes path s at c v h = elim (Result-split (Files.get_file s.namespace path)) [
  | inl (e, failed) ↦ absurd (cc (rw (failed, get_file_during) at h))
  | inr (f, is) ↦ elim (Result-split (get_chunk_locations s.chunk_mgr f.chunk_ids)) [
    | inl (e, failed) ↦ absurd (cc (rw (is, get_file_during, locate_file, failed) at h))
    | inr (locs, found) ↦ elim (Result-split (located_chunks at 0 locs)) [
      | inl (e, failed) ↦
          located_chunks-Vanishes s.chunk_mgr at 0 f.chunk_ids locs c v
            (get_chunk_locations-live s.chunk_mgr f.chunk_ids locs found)
            (failed ∙ ap blame (rw (is, get_file_during, locate_file, found, failed) at h))
      | inr (infos, all) ↦ absurd (cc (rw (is, get_file_during, locate_file, found, all) at h))
    ]
  ]
]
  where
    blame :
        Result Failure (FileInfo × List ChunkPlacement) → Result Failure (List (Option ChunkInfo))
    blame (err e) = err e
    blame (ok a) = ok []

-- In every state that the server reaches by requests, background routines and migrations to
-- registered nodes, and where no other request comes in between its reads: `GetFile` answers
-- exactly if the path names a file and each of its chunks has a record that lists a registered node
-- which is not dead; and it does not panic for want of a chunk's record. Whatever other requests
-- come in between: if it panics so, then that record was there when it located the chunks and was
-- gone at a later read.
pub get_file-answers :
    (sha256 : List ℕ → List ℕ) (path : Str) (s : Server)
    → Serves sha256 s
    → (((answer : FileInfo × List ChunkPlacement) × (get_file path s ≡ ok answer)) ↔ (
        (f : FileMeta) × (stored s.namespace path ≡ some f)
        × All (HasLive s.chunk_mgr) f.chunk_ids))
      × ((c : Str) → get_file path s ≢ err (nil_chunk c))
      × ((at : ℕ → ChunkManager) (c : Str)
          → get_file_during path s.namespace s.chunk_mgr at ≡ err (nil_chunk c)
          → Vanishes s.chunk_mgr at c)
get_file-answers sha256 path s r =
    let (answers, calm) = get_file_now sha256 path s r in
    (answers, calm, λ at c h. get_file_during-Vanishes path s at c (Serves-Inv sha256 r) h)
