-- ===== src/Namespace/Files/Removal.antt =====
-- `DeleteFile` as an update of the map from paths to files.
use sentinel_fs.Prelude.{
  ◌≡◌, List, [], ◌∷◌, ◌++◌, none, some, Str, eq_iff, if◌then◌else◌, Result, ok, err, arith,
}
use sentinel_fs.Namespace.Tree.{FileMeta, Entries, NsError, file, dir, child, resolve_dir}
use sentinel_fs.Namespace.Tree.View.{
  file_at, same_words, child-set_child, child-drop_child, set_child_same, absent, is_file, is_dir,
  child_cases,
}
use sentinel_fs.Namespace.Files.{remove_file}

module _ (path name at_dir : Str) where
  abbrev removed : List Str → Entries → Result NsError FileMeta × Entries
  removed dirs es = resolve_dir (remove_file path name) at_dir dirs es

  remove_file-file_at :
      (es : Entries) (qs : List Str) (m : FileMeta)
      → (remove_file path name es).0 ≡ ok m
      → file_at qs (remove_file path name es).1
        ≡ (if same_words (name ∷ []) qs then none else file_at qs es)
  unfolding remove_file file_at same_words
  remove_file-file_at es [] m h = ground arith
  remove_file-file_at es (q ∷ []) m h = ground (arith, child-drop_child name q es, eq_iff name q)
  remove_file-file_at es (q ∷ r ∷ qs) m h =
      ground (arith, child-drop_child name q es, eq_iff name q)

  pub resolve_dir-file_at :
      (dirs : List Str) (es : Entries) (qs : List Str) (m : FileMeta)
      → (removed dirs es).0 ≡ ok m
      → file_at qs (removed dirs es).1
        ≡ (if same_words (dirs ++ name ∷ []) qs then none else file_at qs es)
  unfolding resolve_dir file_at same_words
  resolve_dir-file_at [] es qs m h = remove_file-file_at es qs m h
  resolve_dir-file_at (p ∷ ps) es [] m h = ground arith
  resolve_dir-file_at (p ∷ ps) es (q ∷ qs) m h = elim (child_cases (child p es)) [
    | absent out ↦ absurd (cc (rw (out, resolve_dir) at h))
    | is_file n f found ↦ absurd (ground arith)
    | is_dir n sub found ↦
        rw (found, resolve_dir)
          (ground (
            arith,
            child-set_child p q (dir n (removed ps sub).1) es,
            eq_iff p q,
            resolve_dir-file_at ps sub qs m,
          ))
  ]

  remove_file-result :
      (es : Entries)
      → (((m : FileMeta) → (remove_file path name es).0 ≡ ok m → file_at (name ∷ []) es ≡ some m)
          × ((e : NsError)
              → (remove_file path name es).0 ≡ err e
              → (file_at (name ∷ []) es ≡ none) × ((remove_file path name es).1 ≡ es)))
  unfolding remove_file file_at
  remove_file-result es = ((λ m h. ground arith), (λ e h. ground arith))

  below_file :
      (p : Str) (ps : List Str) (es : Entries) (n : Str) (f : FileMeta)
      → child p es ≡ some (file n f)
      → file_at ((p ∷ ps) ++ name ∷ []) es ≡ none
  unfolding file_at
  below_file p [] es n f found = ground arith
  below_file p (q ∷ ps) es n f found = ground arith

  -- The deletion of what is no file changes nothing, and of a file returns its metadata.
  pub resolve_dir-result :
      (dirs : List Str) (es : Entries)
      → (((m : FileMeta) → (removed dirs es).0 ≡ ok m → file_at (dirs ++ name ∷ []) es ≡ some m)
          × ((e : NsError)
              → (removed dirs es).0 ≡ err e
              → (file_at (dirs ++ name ∷ []) es ≡ none) × ((removed dirs es).1 ≡ es)))
  unfolding resolve_dir file_at
  resolve_dir-result [] es = remove_file-result es
  resolve_dir-result (p ∷ ps) es = elim (child_cases (child p es)) [
    | absent out ↦ ((λ m h. absurd (ground arith)), (λ e h. (ground arith, ground arith)))
    | is_file n f found ↦
        ((λ m h. absurd (ground arith)), (λ e h. (below_file p ps es n f found, ground arith)))
    | is_dir n sub found ↦
        let ih = resolve_dir-result ps sub in
        (
          (λ m h. ground (arith, ih.0 m)),
          (λ e h.
              (ground (arith, ih.1 e), ground (arith, ih.1 e, set_child_same p (dir n sub) es))),
        )
  ]
