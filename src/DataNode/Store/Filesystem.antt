-- ===== src/DataNode/Store/Filesystem.antt =====
-- The disk, and what store.go uses of `path/filepath` on Unix.
use sentinel_fs.Prelude.{
  ℕ, List, [], ◌∷◌, ◌++◌, Bool, false, Str, bytes, ◌==◌, Map, eqb, if◌then◌else◌, ◌||◌,
}
use mathlib.Core.List.{reverse}
use sentinel_fs.Namespace.Paths.{slash, split, join}

abbrev pub Disk : Type 0
Disk = Map (List ℕ)

-- One more part of a path behind the clean parts, the last of them first.
unfoldable pub clean_part : Bool → Str → List Str → List Str
clean_part rooted part done =
    if part == [] || part == bytes "."
    then done
    else if part == bytes ".."
    then (elim done [
      | [] ↦ (if rooted then [] else part ∷ [])
      | d ∷ ds ↦ (if d == bytes ".." then part ∷ d ∷ ds else ds)
    ])
    else part ∷ done

unfoldable pub clean_parts : Bool → List Str → List Str → List Str
unfolding clean_part
clean_parts rooted [] done = done
clean_parts rooted (p ∷ ps) done = clean_parts rooted ps (clean_part rooted p done)

abbrev pub is_rooted : Str → Bool
is_rooted [] = false
is_rooted (c ∷ s) = eqb c slash

-- The clean parts, the last first, as a path.
unfoldable pub render : Bool → List Str → Str
render rooted done =
    let text = join (reverse done) in
    if rooted then slash ∷ text else if text == [] then bytes "." else text

-- filepath.Clean
unfoldable pub clean : Str → Str
unfolding clean_parts render
clean path = render (is_rooted path) (clean_parts (is_rooted path) (split path) [])

-- filepath.Join of two elements, the second of them not empty
unfoldable pub join_path : Str → Str → Str
unfolding clean
join_path dir name = if dir == [] then clean name else clean (dir ++ (slash ∷ name))

-- filepath.Ext: what stands from the last dot of the last element on.
unfoldable pub ext_from : Str → Str → Str
ext_from found [] = found
ext_from found (c ∷ s) =
    ext_from (if eqb c slash then [] else if eqb c b'.' then c ∷ s else found) s

unfoldable pub ext : Str → Str
unfolding ext_from
ext name = ext_from [] name
