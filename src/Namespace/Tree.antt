-- ===== src/Namespace/Tree.antt =====
-- The tree of internal/metaserver/namespace.go: a `DirEntry` is a file with its metadata or a directory
-- with its children, and the walks `resolve`, `resolveDir` and `mkdirAll` down the parts of a path. A
-- pointer to a directory is the position at which a walk goes on with the directory's children.
pub mod View
use sentinel_fs.Prelude.{
  ℕ, List, [], ◌∷◌, ◌++◌, Option, none, some, Str, Int64, ◌==◌, if◌then◌else◌, Result, ok, err,
}

pub record FileMeta : Type 0 where
  pub path : Str
  pub size : Int64
  pub chunk_count : ℕ
  pub replication_factor : ℕ
  pub checksum : Str
  pub chunk_ids : List Str
  pub created_at : ℕ

mutual
  pub data DirEntry : Type 0 where
    file : Str → FileMeta → DirEntry
    dir : Str → Entries → DirEntry

  -- A `map[string]*DirEntry`, in the order in which the next `range` visits it.
  pub data Entries : Type 0 where
    nil : Entries
    entry : Str → DirEntry → Entries → Entries

pub data NsError : Type 0 where
  empty_path : NsError
  is_directory component_is_file path_not_found not_a_directory file_not_found : Str → NsError

-- child, ok := children[name]
unfoldable pub child : Str → Entries → Option DirEntry
child name nil = none
child name (entry k e es) = if k == name then some e else child name es

-- children[name] = e
unfoldable pub set_child : Str → DirEntry → Entries → Entries
set_child name e nil = entry name e nil
set_child name e (entry k f es) =
    if k == name then entry k e es else entry k f (set_child name e es)

-- delete(children, name). The keys of the map are distinct; here every entry of the name goes.
unfoldable pub drop_child : Str → Entries → Entries
drop_child name nil = nil
drop_child name (entry k f es) =
    let rest = drop_child name es in if k == name then rest else entry k f rest

-- The loop of `resolve`: a file has no children.
unfoldable pub descend : DirEntry → List Str → Option DirEntry
descend e [] = some e
descend (file n m) (p ∷ ps) = none
descend (dir n es) (p ∷ ps) = elim (child p es) [ none ↦ none | some e ↦ descend e ps ]

-- A step on the children of the directory that a walk reaches, with its result.
abbrev pub Action : Type 0 → Type 0
Action A = Entries → Result NsError A × Entries

module _ {A : Type 0} (act : Action A) where
  -- The loop of `mkdirAll`, then `act` on the directory that it returns.
  unfoldable pub mkdir_all : List Str → Action A
  mkdir_all [] es = act es
  mkdir_all (p ∷ ps) es = elim (child p es) [
    | none ↦ let (r, sub) = mkdir_all ps nil in (r, set_child p (dir p sub) es)
    | some (file n m) ↦ (err (component_is_file p), es)
    | some (dir n sub) ↦ let (r, sub') = mkdir_all ps sub in (r, set_child p (dir n sub') es)
  ]

  -- `resolveDir` of the path with these parts, then `act` on the directory that it returns.
  unfoldable pub resolve_dir : Str → List Str → Action A
  resolve_dir path [] es = act es
  resolve_dir path (p ∷ ps) es = elim (child p es) [
    | none ↦ (err (path_not_found path), es)
    | some (file n m) ↦
        (elim ps [ [] ↦ err (not_a_directory path) | _ ∷ _ ↦ err (path_not_found path) ], es)
    | some (dir n sub) ↦ let (r, sub') = resolve_dir path ps sub in (r, set_child p (dir n sub') es)
  ]
