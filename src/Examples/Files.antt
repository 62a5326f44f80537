-- ===== src/Examples/Files.antt =====
-- The theorems on the namespace, on one file in one directory.
use sentinel_fs.Prelude.{
  ◌≡◌, refl, List, [], ◌∷◌, ◌++◌, none, some, Str, bytes, ok, err, All, if◌then◌else◌,
}
use sentinel_fs.Namespace.Paths.{clean_path}
use sentinel_fs.Namespace.Paths.Words.{IsWord, path_of}
use sentinel_fs.Namespace.Tree.{FileMeta, NsError}
use sentinel_fs.Namespace.Tree.View.{same_words}
use sentinel_fs.Namespace.Files.{Namespace, new_namespace, create_file, delete_file}
use sentinel_fs.Namespace.Files.Contract.{stored, create_file_lem, delete_file_lem}

abbrev report : FileMeta
report = record {
  path = bytes "/d/r";
  size = 100;
  chunk_count = 1;
  replication_factor = 3;
  checksum = [];
  chunk_ids = bytes "c1" ∷ [];
  created_at = 7;
}

abbrev pub dirs : List Str
dirs = bytes "d" ∷ []

abbrev pub name : Str
name = bytes "r"

abbrev with_report : Namespace
with_report = (create_file (path_of dirs name) report new_namespace).1

pub words : All IsWord (dirs ++ name ∷ [])
words = (((λ e. cc e), (refl, tt)), (((λ e. cc e), (refl, tt)), tt))

create_file_lem_example :
    let r = create_file (path_of dirs name) report new_namespace in
    (r.0 ≡ ok tt
      → (path : Str)
      → stored r.1 path ≡ (
          if same_words (dirs ++ name ∷ []) (clean_path path)
          then some report
          else stored new_namespace path))
    × ((e : NsError) → r.0 ≡ err e → r.1 ≡ new_namespace)
create_file_lem_example = create_file_lem dirs name report new_namespace words

delete_file_lem_example :
    let r = delete_file (path_of dirs name) with_report in
    ((m : FileMeta)
      → r.0 ≡ ok m
      → (stored with_report (path_of dirs name) ≡ some m)
        × ((path : Str)
            → stored r.1 path ≡ (
                if same_words (dirs ++ name ∷ []) (clean_path path)
                then none
                else stored with_report path)))
    × ((e : NsError)
        → r.0 ≡ err e
        → (stored with_report (path_of dirs name) ≡ none) × (r.1 ≡ with_report))
delete_file_lem_example = delete_file_lem dirs name with_report words
