-- ===== src/Namespace/Paths/Words.antt =====
-- Paths in normal form: words joined by single slashes behind one slash.
use sentinel_fs.Prelude.{
  ◌≡◌, ◌≢◌, refl, sym, subst, ap, ◌∙◌, List, [], ◌∷◌, ◌++◌, some, false, Str, eqb, All, arith,
}
use sentinel_fs.Namespace.Paths.{
  slash, trim_prefix, trim_suffix, split, join, init, last, split_parts, split_path, clean_path,
  split_cleaned, split_trimmed,
}

-- A name without slashes that is not empty.
abbrev pub IsWord : Str → Type 0
IsWord w = (w ≢ []) × All (λ c. eqb c slash ≡ false) w

-- The path of the words `dirs` and then `name`.
abbrev pub path_of : List Str → Str → Str
path_of dirs name = slash ∷ join (dirs ++ name ∷ [])

split-word : (w : Str) → All (λ c. eqb c slash ≡ false) w → split w ≡ w ∷ []
unfolding split
split-word [] h = refl
split-word (c ∷ w) h = ground (arith, split-word w h.1)

split-append : (w s : Str) → All (λ c. eqb c slash ≡ false) w → split (w ++ slash ∷ s) ≡ w ∷ split s
unfolding split
split-append [] s h = refl
split-append (c ∷ w) s h = ground (arith, split-append w s h.1)

-- Splitting undoes joining.
split-join : (w : Str) (ws : List Str) → All IsWord (w ∷ ws) → split (join (w ∷ ws)) ≡ w ∷ ws
unfolding join
split-join w [] h = split-word w h.0.1
split-join w (v ∷ ws) h =
    split-append w (join (v ∷ ws)) h.0.1 ∙ ap (λ l. w ∷ l) (split-join v ws h.1)

trim_suffix-word : (w : Str) → All (λ c. eqb c slash ≡ false) w → trim_suffix w ≡ w
unfolding trim_suffix
trim_suffix-word [] h = refl
trim_suffix-word (c ∷ []) h = ground arith
trim_suffix-word (c ∷ d ∷ w) h = ap (λ l. c ∷ l) (trim_suffix-word (d ∷ w) h.1)

trim_suffix-append : (w s : Str) → s ≢ [] → trim_suffix (w ++ s) ≡ w ++ trim_suffix s
unfolding trim_suffix
trim_suffix-append [] s h = refl
trim_suffix-append (c ∷ []) [] h = absurd (h refl)
trim_suffix-append (c ∷ []) (d ∷ s) h = refl
trim_suffix-append (c ∷ d ∷ w) s h = ap (λ l. c ∷ l) (trim_suffix-append (d ∷ w) s h)

pub join-ne-nil : (w : Str) (ws : List Str) → IsWord w → join (w ∷ ws) ≢ []
unfolding join
join-ne-nil w [] h e = h.0 e
join-ne-nil [] (v ∷ ws) h e = h.0 refl
join-ne-nil (c ∷ w) (v ∷ ws) h e = cc

trim_suffix-join :
    (w : Str) (ws : List Str) → All IsWord (w ∷ ws) → trim_suffix (join (w ∷ ws)) ≡ join (w ∷ ws)
unfolding join
trim_suffix-join w [] h = trim_suffix-word w h.0.1
trim_suffix-join w (v ∷ ws) h =
    trim_suffix-append w (slash ∷ join (v ∷ ws)) (λ e. cc)
    ∙ ap (λ l. w ++ l) (tail (join (v ∷ ws)) (join-ne-nil v ws h.1.0))
    ∙ ap (λ l. w ++ slash ∷ l) (trim_suffix-join v ws h.1)
  where
    tail : (s : Str) → s ≢ [] → trim_suffix (slash ∷ s) ≡ slash ∷ trim_suffix s
    tail [] n = absurd (n refl)
    tail (c ∷ s) n = unfold trim_suffix in refl

init-snoc : (ws : List Str) (v : Str) → init (ws ++ v ∷ []) ≡ ws
unfolding init
init-snoc [] v = refl
init-snoc (w ∷ []) v = refl
init-snoc (w ∷ u ∷ ws) v = ap (λ l. w ∷ l) (init-snoc (u ∷ ws) v)

last-snoc : (ws : List Str) (v : Str) → last (ws ++ v ∷ []) ≡ v
unfolding last
last-snoc [] v = refl
last-snoc (w ∷ []) v = refl
last-snoc (w ∷ u ∷ ws) v = last-snoc (u ∷ ws) v

split_cleaned_lem : (s : Str) → s ≢ [] → split_cleaned s ≡ split s
unfolding split_cleaned
split_cleaned_lem [] h = absurd (h refl)
split_cleaned_lem (c ∷ s) h = refl

split_trimmed_lem : (s : Str) → s ≢ [] → split_trimmed s ≡ some (split_parts (split s))
unfolding split_trimmed
split_trimmed_lem [] h = absurd (h refl)
split_trimmed_lem (c ∷ s) h = refl

trim_prefix-slash : (s : Str) → trim_prefix (slash ∷ s) ≡ s
unfolding trim_prefix
trim_prefix-slash s = refl

-- The words of a path in normal form are found again.
pub clean_path-join :
    (w : Str) (ws : List Str) → All IsWord (w ∷ ws) → clean_path (slash ∷ join (w ∷ ws)) ≡ w ∷ ws
clean_path-join w ws h =
    unfold_clean (join (w ∷ ws))
    ∙ ap split_cleaned (trim_suffix-join w ws h)
    ∙ split_cleaned_lem (join (w ∷ ws)) (join-ne-nil w ws h.0)
    ∙ split-join w ws h
  where
    unfold_clean : (s : Str) → clean_path (slash ∷ s) ≡ split_cleaned (trim_suffix s)
    unfold_clean s =
        unfold clean_path in ap (λ t. split_cleaned (trim_suffix t)) (trim_prefix-slash s)

snoc-cons :
    (dirs : List Str) (name : Str) → (w : Str) × (ws : List Str) × (dirs ++ name ∷ [] ≡ w ∷ ws)
snoc-cons [] name = (name, [], refl)
snoc-cons (d ∷ dirs) name = (d, dirs ++ name ∷ [], refl)

-- A path in normal form is split into the path of its directory and its name.
pub split_path-path_of :
    (dirs : List Str) (name : Str)
    → All IsWord (dirs ++ name ∷ [])
    → split_path (path_of dirs name) ≡ some (slash ∷ join dirs, name)
unfolding split_path split_parts
split_path-path_of dirs name h =
    let (w, ws, e) = snoc-cons dirs name in
    let h' : All IsWord (w ∷ ws) = subst (All IsWord) e h in
    ap split_trimmed (trim_prefix-slash (join (dirs ++ name ∷ [])) ∙ ap join e)
    ∙ split_trimmed_lem (join (w ∷ ws)) (join-ne-nil w ws h'.0)
    ∙ ap (λ l. some (split_parts l)) (split-join w ws h' ∙ sym e)
    ∙ cc (init-snoc dirs name, last-snoc dirs name)

-- The words of a path in normal form are its directories and its name.
pub clean_path-path_of :
    (dirs : List Str) (name : Str)
    → All IsWord (dirs ++ name ∷ [])
    → clean_path (path_of dirs name) ≡ dirs ++ name ∷ []
clean_path-path_of [] name h = clean_path-join name [] h
clean_path-path_of (d ∷ dirs) name h = clean_path-join d (dirs ++ name ∷ []) h
