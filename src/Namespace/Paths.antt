-- ===== src/Namespace/Paths.antt =====
-- `splitPath` and `cleanPath` of internal/metaserver/namespace.go, with what they use of `strings`.
pub mod Words
use sentinel_fs.Prelude.{ℕ, List, [], ◌∷◌, ◌++◌, Option, none, some, Str, eqb, if◌then◌else◌}

abbrev pub slash : ℕ
slash = b'/'

-- strings.TrimPrefix(s, "/")
unfoldable pub trim_prefix : Str → Str
trim_prefix [] = []
trim_prefix (c ∷ s) = if eqb c slash then s else c ∷ s

-- strings.TrimSuffix(s, "/")
unfoldable pub trim_suffix : Str → Str
trim_suffix [] = []
trim_suffix (c ∷ []) = if eqb c slash then [] else c ∷ []
trim_suffix (c ∷ d ∷ s) = c ∷ trim_suffix (d ∷ s)

-- One more byte in front of the first part.
unfoldable pub extend : ℕ → List Str → List Str
extend c [] = (c ∷ []) ∷ []
extend c (w ∷ ws) = (c ∷ w) ∷ ws

-- strings.Split(s, "/"), which is never empty
unfoldable pub split : Str → List Str
unfolding extend
split [] = [] ∷ []
split (c ∷ s) = if eqb c slash then [] ∷ split s else extend c (split s)

-- strings.Join(parts, "/")
unfoldable pub join : List Str → Str
join [] = []
join (w ∷ []) = w
join (w ∷ v ∷ ws) = w ++ (slash ∷ join (v ∷ ws))

-- parts[:len(parts)-1] and parts[len(parts)-1], of parts that are not empty
unfoldable pub init : List Str → List Str
init [] = []
init (w ∷ []) = []
init (w ∷ v ∷ ws) = w ∷ init (v ∷ ws)

unfoldable pub last : List Str → Str
last [] = []
last (w ∷ []) = w
last (w ∷ v ∷ ws) = last (v ∷ ws)

unfoldable pub split_parts : List Str → Str × Str
unfolding init last join
split_parts parts = (slash ∷ join (init parts), last parts)

-- The directory and the name of a path without its first slash.
unfoldable pub split_trimmed : Str → Option (Str × Str)
unfolding split split_parts
split_trimmed [] = none
split_trimmed (c ∷ s) = some (split_parts (split (c ∷ s)))

-- The directory and the name; none of an empty path.
unfoldable pub split_path : Str → Option (Str × Str)
unfolding trim_prefix split_trimmed
split_path path = split_trimmed (trim_prefix path)

unfoldable pub split_cleaned : Str → List Str
unfolding split
split_cleaned [] = []
split_cleaned (c ∷ s) = split (c ∷ s)

unfoldable pub clean_path : Str → List Str
unfolding trim_prefix trim_suffix split_cleaned
clean_path path = split_cleaned (trim_suffix (trim_prefix path))
