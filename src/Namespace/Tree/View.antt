-- ===== src/Namespace/Tree/View.antt =====
-- The tree as a map from the parts of paths to files, and the laws of its children.
use sentinel_fs.Prelude.{
  ◌≡◌, refl, List, [], ◌∷◌, Bool, true, false, ◌&&◌, Option, none, some, Str, ◌==◌, eq_iff,
  if◌then◌else◌, arith,
}
use sentinel_fs.Namespace.Tree.{
  FileMeta, DirEntry, Entries, file, dir, nil, entry, child, set_child, drop_child,
}

-- The file at some parts below a directory with these children.
unfoldable pub file_at : List Str → Entries → Option FileMeta
file_at [] es = none
file_at (q ∷ qs) es = elim (child q es) [
  | none ↦ none
  | some (file n m) ↦ elim qs [ [] ↦ some m | _ ∷ _ ↦ none ]
  | some (dir n sub) ↦ file_at qs sub
]

unfoldable pub same_words : List Str → List Str → Bool
same_words [] [] = true
same_words [] (w ∷ ws) = false
same_words (v ∷ vs) [] = false
same_words (v ∷ vs) (w ∷ ws) = v == w && same_words vs ws

pub child-set_child :
    (k j : Str) (e : DirEntry) (es : Entries)
    → child j (set_child k e es) ≡ (if k == j then some e else child j es)
unfolding child set_child
child-set_child k j e nil = refl
child-set_child k j e (entry i f es) =
    ground (arith, eq_iff k j, eq_iff i k, eq_iff i j, child-set_child k j e es)

pub child-drop_child :
    (k j : Str) (es : Entries) → child j (drop_child k es) ≡ (if k == j then none else child j es)
unfolding child drop_child
child-drop_child k j nil = ground arith
child-drop_child k j (entry i f es) =
    ground (arith, eq_iff k j, eq_iff i k, eq_iff i j, child-drop_child k j es)

-- Setting a child to what it is changes nothing.
pub set_child_same :
    (k : Str) (e : DirEntry) (es : Entries) → child k es ≡ some e → set_child k e es ≡ es
unfolding child set_child
set_child_same k e nil h = cc
set_child_same k e (entry i f es) h = ground (arith, set_child_same k e es)

pub file_at-nil : (qs : List Str) → file_at qs nil ≡ none
unfolding file_at child
file_at-nil [] = refl
file_at-nil (q ∷ qs) = refl

-- What a lookup may find.
pub data ChildCases (o : Option DirEntry) : Type 0 where
  absent : o ≡ none → ChildCases o
  is_file : (n : Str) (m : FileMeta) → o ≡ some (file n m) → ChildCases o
  is_dir : (n : Str) (sub : Entries) → o ≡ some (dir n sub) → ChildCases o

pub child_cases : (o : Option DirEntry) → ChildCases o
child_cases none = absent refl
child_cases (some (file n m)) = is_file n m refl
child_cases (some (dir n sub)) = is_dir n sub refl
