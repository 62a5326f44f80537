-- ===== src/Namespace/Files.antt =====
-- The operations of internal/metaserver/namespace.go. `root` holds the children of the root.
pub mod Creation
pub mod Removal
pub mod Contract
use sentinel_fs.Prelude.{
  ℕ, List, [], ◌∷◌, ◌++◌, Bool, true, false, ◌||◌, Option, none, some, Str, bytes, ◌==◌,
  if◌then◌else◌, Result, ok, err, ◌>>=◌,
}
use sentinel_fs.Namespace.Paths.{split_path, clean_path}
use sentinel_fs.Namespace.Tree.{
  FileMeta, DirEntry, Entries, NsError, Action, file, dir, nil, entry, empty_path, is_directory,
  path_not_found, not_a_directory, file_not_found, child, set_child, drop_child, descend, mkdir_all,
  resolve_dir,
}

pub record Namespace : Type 0 where
  pub root : Entries

unfoldable pub new_namespace : Namespace
new_namespace = record { root = nil }

-- if path == "/" || path == "" { the root } else { its parts }
unfoldable pub dir_parts : Str → List Str
dir_parts path = if path == bytes "/" || path == [] then [] else clean_path path

-- The end of `CreateFile`, on the children of the parent.
unfoldable pub add_file : Str → Str → FileMeta → Action (Unit {0})
add_file path name meta es = elim (child name es) [
  | some (dir n sub) ↦ (err (is_directory path), es)
  | some (file n m) ↦ (ok tt, set_child name (file name meta) es)
  | none ↦ (ok tt, set_child name (file name meta) es)
]

unfoldable pub create_file : Str → FileMeta → Namespace → Result NsError (Unit {0}) × Namespace
create_file path meta ns = elim (split_path path) [
  | none ↦ (err empty_path, ns)
  | some (d, name) ↦
      let (r, root) = mkdir_all (add_file path name meta) (dir_parts d) ns.root in
      (r, record { root = root })
]

unfoldable pub resolve : Namespace → Str → Result NsError DirEntry
resolve ns path = elim (descend (dir (bytes "/") ns.root) (clean_path path)) [
  | none ↦ err (path_not_found path)
  | some e ↦ ok e
]

unfoldable pub file_of : Str → DirEntry → Result NsError FileMeta
file_of path (dir n es) = err (is_directory path)
file_of path (file n m) = ok m

unfoldable pub get_file : Namespace → Str → Result NsError FileMeta
unfolding resolve file_of
get_file ns path = do e ← resolve ns path; file_of path e

-- The end of `DeleteFile`, on the children of the parent.
unfoldable pub remove_file : Str → Str → Action FileMeta
remove_file path name es = elim (child name es) [
  | none ↦ (err (file_not_found path), es)
  | some (dir n sub) ↦ (err (is_directory path), es)
  | some (file n m) ↦ (ok m, drop_child name es)
]

unfoldable pub delete_file : Str → Namespace → Result NsError FileMeta × Namespace
delete_file path ns = elim (split_path path) [
  | none ↦ (err empty_path, ns)
  | some (d, name) ↦
      let (r, root) = resolve_dir (remove_file path name) d (dir_parts d) ns.root in
      (r, record { root = root })
]

unfoldable pub entry_list : Entries → List DirEntry
entry_list nil = []
entry_list (entry k e es) = e ∷ entry_list es

unfoldable pub children_of : Str → DirEntry → Result NsError (List DirEntry)
unfolding entry_list
children_of path (file n m) = err (not_a_directory path)
children_of path (dir n es) = ok (entry_list es)

unfoldable pub list_dir : Namespace → Str → Result NsError (List DirEntry)
unfolding children_of resolve
list_dir ns path =
    if path == bytes "/" || path == []
    then ok (entry_list ns.root)
    else do e ← resolve ns path; children_of path e

unfoldable pub file_exists : Namespace → Str → Bool
unfolding resolve
file_exists ns path = elim (resolve ns path) [
  | err e ↦ false
  | ok (dir n es) ↦ false
  | ok (file n m) ↦ true
]

unfoldable mutual
  pub walk_files : DirEntry → List FileMeta
  walk_files (file n m) = m ∷ []
  walk_files (dir n es) = walk_children es

  pub walk_children : Entries → List FileMeta
  walk_children nil = []
  walk_children (entry k e es) = walk_files e ++ walk_children es

unfoldable pub get_all_files : Namespace → List FileMeta
unfolding walk_children
get_all_files ns = walk_children ns.root
