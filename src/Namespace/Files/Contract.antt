-- ===== src/Namespace/Files/Contract.antt =====
-- The namespace against its abstract view, a map from paths to files.
use sentinel_fs.Prelude.{
  ◌≡◌, ◌≢◌, refl, sym, ap, ◌∙◌, List, [], ◌∷◌, ◌++◌, false, Option, none, some, Str, ◌==◌,
  if◌then◌else◌, Result, ok, err, arith, All, bytes,
}
use sentinel_fs.Namespace.Paths.{slash, join, clean_path}
use sentinel_fs.Namespace.Paths.Words.{
  IsWord, path_of, clean_path-join, split_path-path_of, clean_path-path_of, join-ne-nil,
}
use sentinel_fs.Namespace.Tree.{
  FileMeta, DirEntry, Entries, NsError, file, dir, child, descend, mkdir_all, resolve_dir,
}
use sentinel_fs.Namespace.Tree.View.{file_at, same_words, absent, is_file, is_dir, child_cases}
use sentinel_fs.Namespace.Files.{
  Namespace, dir_parts, add_file, create_file, get_file, remove_file, delete_file,
}
use sentinel_fs.Namespace.Files.Creation.{mkdir_all-file_at, mkdir_all_error}
use sentinel_fs.Namespace.Files.Removal.{resolve_dir-file_at, resolve_dir-result}

-- What `GetFile` shows of a path.
abbrev pub stored : Namespace → Str → Option FileMeta
stored ns path = elim (get_file ns path) [ ok m ↦ some m | err e ↦ none ]

file_in : Option DirEntry → Option FileMeta
file_in none = none
file_in (some (file n m)) = some m
file_in (some (dir n es)) = none

file_in-descend :
    (n : Str) (es : Entries) (qs : List Str) → file_in (descend (dir n es) qs) ≡ file_at qs es
unfolding file_in descend file_at
file_in-descend n es [] = refl
file_in-descend n es (q ∷ qs) = elim (child_cases (child q es)) [
  | absent out ↦ ground arith
  | is_dir k sub found ↦ ground (arith, file_in-descend k sub qs)
  | is_file k m found ↦ last_file qs k m found
]
  where
    last_file :
        (qs : List Str) (k : Str) (m : FileMeta)
        → child q es ≡ some (file k m)
        → file_in (descend (dir n es) (q ∷ qs)) ≡ file_at (q ∷ qs) es
    last_file [] k m found = ground arith
    last_file (r ∷ qs) k m found = ground arith

pub stored-file_at :
    (ns : Namespace) (path : Str) → stored ns path ≡ file_at (clean_path path) ns.root
unfolding get_file file_in
stored-file_at ns path = ground (arith, file_in-descend (bytes "/") ns.root (clean_path path))

dir_parts-join : (dirs : List Str) → All IsWord dirs → dir_parts (slash ∷ join dirs) ≡ dirs
unfolding dir_parts join ◌==◌
dir_parts-join [] h = refl
dir_parts-join (w ∷ ws) h =
    ground (arith, clean_path-join w ws h, not_root (join (w ∷ ws)) (join-ne-nil w ws h.0))
  where
    not_root : (s : Str) → s ≢ [] → (slash ∷ s == bytes "/") ≡ false
    not_root [] n = absurd (n refl)
    not_root (c ∷ s) n = refl

All-front : (dirs : List Str) (name : Str) → All IsWord (dirs ++ name ∷ []) → All IsWord dirs
All-front [] name h = tt
All-front (d ∷ dirs) name h = (h.0, All-front dirs name h.1)

parent-path_of :
    (dirs : List Str) (name : Str)
    → All IsWord (dirs ++ name ∷ [])
    → dir_parts (slash ∷ join dirs) ≡ dirs
parent-path_of dirs name h = dir_parts-join dirs (All-front dirs name h)

-- For a path in normal form, `CreateFile` either fails and changes nothing, or afterwards `GetFile`
-- returns the new metadata on every path that names the same file, and on every other path what it
-- returned before, as far as it is a file.
pub create_file_lem :
    (dirs : List Str) (name : Str) (meta : FileMeta) (ns : Namespace)
    → All IsWord (dirs ++ name ∷ [])
    → let r = create_file (path_of dirs name) meta ns in
      (r.0 ≡ ok tt
        → (path : Str)
        → stored r.1 path ≡ (
            if same_words (dirs ++ name ∷ []) (clean_path path) then some meta else stored ns path))
      × ((e : NsError) → r.0 ≡ err e → r.1 ≡ ns)
unfolding create_file
create_file_lem dirs name meta ns words =
    rw (split_path-path_of dirs name words, create_file, parent-path_of dirs name words)
      (
        (λ h path.
            stored-file_at (record { root = made.1 }) path
            ∙ mkdir_all-file_at (path_of dirs name) name meta dirs ns.root (clean_path path) h
            ∙ ap (λ o. if same_words (dirs ++ name ∷ []) (clean_path path) then some meta else o)
                (sym (stored-file_at ns path))),
        (λ e h.
            ap (λ t. record { root = t })
              (mkdir_all_error (path_of dirs name) name meta dirs ns.root e h)),
      )
  where
    made : Result NsError (Unit {0}) × Entries
    made = mkdir_all (add_file (path_of dirs name) name meta) dirs ns.root

-- For a path in normal form, `DeleteFile` either fails, when there is no file, and changes nothing, or
-- it returns what `GetFile` returned, and afterwards `GetFile` returns no file on a path that names
-- the deleted one, and on every other path what it returned before.
pub delete_file_lem :
    (dirs : List Str) (name : Str) (ns : Namespace)
    → All IsWord (dirs ++ name ∷ [])
    → let r = delete_file (path_of dirs name) ns in
      ((m : FileMeta)
        → r.0 ≡ ok m
        → (stored ns (path_of dirs name) ≡ some m)
          × ((path : Str)
              → stored r.1 path ≡ (
                  if same_words (dirs ++ name ∷ []) (clean_path path)
                  then none
                  else stored ns path)))
      × ((e : NsError) → r.0 ≡ err e → (stored ns (path_of dirs name) ≡ none) × (r.1 ≡ ns))
unfolding delete_file
delete_file_lem dirs name ns words =
    rw (split_path-path_of dirs name words, delete_file, parent-path_of dirs name words)
      (
        (λ m h. (
          here ∙ found.0 m h,
          (λ path.
              stored-file_at (record { root = gone.1 }) path
              ∙ resolve_dir-file_at (path_of dirs name) name (slash ∷ join dirs) dirs ns.root
                  (clean_path path) m h
              ∙ ap (λ o. if same_words (dirs ++ name ∷ []) (clean_path path) then none else o)
                  (sym (stored-file_at ns path))),
        )),
        (λ e h. (here ∙ (found.1 e h).0, ap (λ t. record { root = t }) (found.1 e h).1)),
      )
  where
    gone : Result NsError FileMeta × Entries
    gone = resolve_dir (remove_file (path_of dirs name) name) (slash ∷ join dirs) dirs ns.root

    found :
        ((m : FileMeta) → gone.0 ≡ ok m → file_at (dirs ++ name ∷ []) ns.root ≡ some m)
        × ((e : NsError)
            → gone.0 ≡ err e
            → (file_at (dirs ++ name ∷ []) ns.root ≡ none) × (gone.1 ≡ ns.root))
    found = resolve_dir-result (path_of dirs name) name (slash ∷ join dirs) dirs ns.root

    here : stored ns (path_of dirs name) ≡ file_at (dirs ++ name ∷ []) ns.root
    here =
        stored-file_at ns (path_of dirs name)
        ∙ ap (λ ws. file_at ws ns.root) (clean_path-path_of dirs name words)
