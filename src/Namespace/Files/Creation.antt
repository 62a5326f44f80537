-- ===== src/Namespace/Files/Creation.antt =====
-- `CreateFile` as an update of the map from paths to files.
use sentinel_fs.Prelude.{
  ◌≡◌, refl, List, [], ◌∷◌, ◌++◌, some, Str, eq_iff, if◌then◌else◌, Result, ok, err, arith,
}
use sentinel_fs.Namespace.Tree.{FileMeta, Entries, NsError, file, dir, nil, child, mkdir_all}
use sentinel_fs.Namespace.Tree.View.{
  file_at, same_words, child-set_child, set_child_same, file_at-nil, absent, is_file, is_dir,
  child_cases,
}
use sentinel_fs.Namespace.Files.{add_file}

module _ (path name : Str) (meta : FileMeta) where
  abbrev made : List Str → Entries → Result NsError (Unit {0}) × Entries
  made dirs es = mkdir_all (add_file path name meta) dirs es

  add_file-file_at :
      (es : Entries) (qs : List Str)
      → (add_file path name meta es).0 ≡ ok tt
      → file_at qs (add_file path name meta es).1
        ≡ (if same_words (name ∷ []) qs then some meta else file_at qs es)
  unfolding add_file file_at same_words
  add_file-file_at es [] h = ground arith
  add_file-file_at es (q ∷ []) h =
      ground (arith, child-set_child name q (file name meta) es, eq_iff name q)
  add_file-file_at es (q ∷ r ∷ qs) h =
      ground (arith, child-set_child name q (file name meta) es, eq_iff name q)

  pub mkdir_all-file_at :
      (dirs : List Str) (es : Entries) (qs : List Str)
      → (made dirs es).0 ≡ ok tt
      → file_at qs (made dirs es).1
        ≡ (if same_words (dirs ++ name ∷ []) qs then some meta else file_at qs es)
  unfolding mkdir_all file_at same_words
  mkdir_all-file_at [] es qs h = add_file-file_at es qs h
  mkdir_all-file_at (p ∷ ps) es [] h = ground arith
  mkdir_all-file_at (p ∷ ps) es (q ∷ qs) h = elim (child_cases (child p es)) [
    | absent out ↦
        rw (out, mkdir_all)
          (ground (
            arith,
            child-set_child p q (dir p (made ps nil).1) es,
            eq_iff p q,
            mkdir_all-file_at ps nil qs,
            file_at-nil qs,
          ))
    | is_file n m found ↦ absurd (cc (rw (found, mkdir_all) at h))
    | is_dir n sub found ↦
        rw (found, mkdir_all)
          (ground (
            arith,
            child-set_child p q (dir n (made ps sub).1) es,
            eq_iff p q,
            mkdir_all-file_at ps sub qs,
          ))
  ]

  add_file_error :
      (es : Entries) (e : NsError)
      → (add_file path name meta es).0 ≡ err e
      → (add_file path name meta es).1 ≡ es
  unfolding add_file
  add_file_error es e h = ground arith

  add_file-nil : (add_file path name meta nil).0 ≡ ok tt
  unfolding add_file child
  add_file-nil = refl

  -- In an empty directory nothing stands in the way.
  mkdir_all-nil : (dirs : List Str) → (made dirs nil).0 ≡ ok tt
  unfolding mkdir_all child
  mkdir_all-nil [] = add_file-nil
  mkdir_all-nil (p ∷ ps) = mkdir_all-nil ps

  -- A creation that fails makes no directory on its way.
  pub mkdir_all_error :
      (dirs : List Str) (es : Entries) (e : NsError)
      → (made dirs es).0 ≡ err e
      → (made dirs es).1 ≡ es
  unfolding mkdir_all
  mkdir_all_error [] es e h = add_file_error es e h
  mkdir_all_error (p ∷ ps) es e h = elim (child_cases (child p es)) [
    | absent out ↦ absurd (ground (arith, mkdir_all-nil ps))
    | is_file n m found ↦ rw (found, mkdir_all) refl
    | is_dir n sub found ↦
        rw (found, mkdir_all)
          (ground (arith, mkdir_all_error ps sub e, set_child_same p (dir n sub) es))
  ]
