-- ===== src/Client/Download/Ordered.antt =====
-- The order of arrival does not matter.
use mathlib.Core.Logic.Or
use mathlib.Core.List.{Mem, Perm, mem-cons, mem-cons_self, not-mem-nil}
use mathlib.Core.List.Perm
use sentinel_fs.Prelude.{
  ℕ, ◌^◌, ◌<◌, ◌≤◌, ◌+◌, ◌++◌, ◌≡◌, refl, sym, ◌∙◌, ap, subst, inl, inr, List, [], ◌∷◌, Bool, true,
  false, Option, none, some, Option-cases, Bool-set, Str, All, slt64, length, arith,
}
use sentinel_fs.Sorting.{sort_slice}
use sentinel_fs.Sorting.Order.{Rises, Orders, sort_slice-perm, sort_slice-Rises}
use sentinel_fs.MetaServer.Messages.{ChunkPlacement, int_of_int32}
use sentinel_fs.Client.Upload.{short_id}
use sentinel_fs.Client.Download.{
  ChunkResult, download_chunk, download_all, panics_download, by_index, join_results,
  download_chunks,
}

ChunkResult-set : IsSet ChunkResult
ChunkResult-set = hlevel

All-Mem :
    (p : ChunkResult → Bool) (b : Bool) (xs : List ChunkResult) (y : ChunkResult)
    → All (λ x. p x ≡ b) xs
    → Mem y xs
    → p y ≡ b
All-Mem p b [] y h m = absurd (not-mem-nil m)
All-Mem p b (x ∷ xs) y h m =
    Or.elim (Bool-set (p y) b) (mem-cons.0 m) (λ e. ap p e ∙ h.0) (λ m'. All-Mem p b xs y h.1 m')

-- Each index is less than all that follow.
abbrev Climbs : List ChunkResult → Type 0
Climbs [] = Unit
Climbs (x ∷ xs) = All (λ y. by_index x y ≡ true) xs × Climbs xs

Climbs-heads :
    (x y : ChunkResult) (xs ys : List ChunkResult)
    → Climbs (x ∷ xs)
    → Rises by_index (y ∷ ys)
    → Perm (y ∷ ys) (x ∷ xs)
    → y ≡ x
Climbs-heads x y xs ys c r p =
    Or.elim (ChunkResult-set y x) (mem-cons.0 ((Perm.mem_iff p).0 mem-cons_self)) (λ e. e)
      (λ later.
        Or.elim (ChunkResult-set y x) (mem-cons.0 ((Perm.mem_iff p).1 mem-cons_self)) sym (λ behind.
          absurd (
            cc (
              sym (All-Mem (by_index x) true xs y c.0 later)
              ∙ All-Mem (λ z. by_index z y) false ys x r.0 behind))))

-- A climbing list is the only order of its elements that the sort may return.
Climbs-unique : (xs ys : List ChunkResult) → Climbs xs → Rises by_index ys → Perm ys xs → ys ≡ xs
Climbs-unique [] ys c r p = Perm.eq-nil p
Climbs-unique (x ∷ xs) [] c r p = Perm.nil-eq p
Climbs-unique (x ∷ xs) (y ∷ ys) c r p =
    let e = Climbs-heads x y xs ys c r p in
    let tails = Perm.cons_inv {a = x} (subst (λ z. Perm (z ∷ ys) (x ∷ xs)) e p) in
    ap (λ z. z ∷ ys) e ∙ ap (λ l. x ∷ l) (Climbs-unique xs ys c.1 r.1 tails)

by_index-Orders : Orders by_index (λ r. Unit {0})
unfolding by_index slt64
by_index-Orders = record {
  asym = λ a b pa pb h. ground arith;
  through = λ a b c pa pb pc h h'. ground arith;
}

All-Unit : (xs : List ChunkResult) → All (λ r. Unit {0}) xs
All-Unit [] = tt
All-Unit (x ∷ xs) = (tt, All-Unit xs)

sort_slice-Climbs :
    (xs ys : List ChunkResult) → Climbs xs → Perm ys xs → sort_slice by_index ys ≡ xs
sort_slice-Climbs xs ys c p =
    Climbs-unique xs (sort_slice by_index ys) c
      (sort_slice-Rises by_index (λ r. Unit {0}) by_index-Orders ys (All-Unit ys))
      (Perm.trans (sort_slice-perm by_index ys) p)

-- The indexes of the locations ascend, as `GetChunkLocations` lists them, and are not negative.
abbrev pub IndexesFrom : ℕ → List ChunkPlacement → Type 0
IndexesFrom n [] = Unit
IndexesFrom n (l ∷ ls) =
    (n ≤ l.chunk_index) × (l.chunk_index < 2 ^ 31) × IndexesFrom (l.chunk_index + 1) ls

abbrev pub joined_to : List ℕ → Option (List ℕ) → Option (List ℕ)
joined_to c none = none
joined_to c (some cs) = some (c ++ cs)

module _ (fetch : Str → List Str → Option (List ℕ)) where
  -- The contents of all chunks in the order of the locations, none if one cannot be fetched.
  abbrev pub fetch_all : List ChunkPlacement → Option (List ℕ)
  fetch_all [] = some []
  fetch_all (l ∷ ls) = elim (fetch l.chunk_id l.node_addresses) [
    | none ↦ none
    | some c ↦ joined_to c (fetch_all ls)
  ]

  -- The results are in order, and joined they are the contents.
  record Downloaded (n : ℕ) (o : Option (List ℕ)) (rs : List ChunkResult) : Type 0 where
    joined : o ≡ some (join_results rs)
    climbs : Climbs rs
    above : All (λ r. (n ≤ r.index) × (r.index < 2 ^ 31)) rs

  abbrev Agree : ℕ → Option (List ChunkResult) → Option (List ℕ) → Type 0
  Agree n none o = o ≡ none
  Agree n (some rs) o = Downloaded n o rs

  All-above :
      (n m : ℕ) (rs : List ChunkResult)
      → n ≤ m
      → All (λ r. (m ≤ r.index) × (r.index < 2 ^ 31)) rs
      → All (λ r. (n ≤ r.index) × (r.index < 2 ^ 31)) rs
  All-above n m [] le h = tt
  All-above n m (r ∷ rs) le h = ((omega (arith, h.0.0), h.0.1), All-above n m rs le h.1)

  All-by_index :
      (r : ChunkResult) (rs : List ChunkResult)
      → r.index < 2 ^ 31
      → All (λ s. (r.index + 1 ≤ s.index) × (s.index < 2 ^ 31)) rs
      → All (λ s. by_index r s ≡ true) rs
  unfolding by_index slt64
  All-by_index r [] low h = tt
  All-by_index r (s ∷ rs) low h =
      let above = h.0.0 in let small = h.0.1 in (ground arith, All-by_index r rs low h.1)

  Downloaded-cons :
      (n : ℕ) (l : ChunkPlacement) (c : List ℕ) (o : Option (List ℕ)) (rs : List ChunkResult)
      → n ≤ l.chunk_index
      → l.chunk_index < 2 ^ 31
      → Downloaded (l.chunk_index + 1) o rs
      → Downloaded n
          (elim o [ none ↦ none | some cs ↦ some (c ++ cs) ])
          (record { index = int_of_int32 l.chunk_index; contents = c } ∷ rs)
  unfolding join_results int_of_int32
  Downloaded-cons n l c o rs le low d = record {
    joined = rw d.joined refl;
    climbs = (
      All-by_index (record { index = int_of_int32 l.chunk_index; contents = c }) rs (rw same low)
          (rw same d.above),
      d.climbs,
    );
    above = ((rw same le, rw same low), All-above n (l.chunk_index + 1) rs (omega arith) d.above);
  }
    where
      same : int_of_int32 l.chunk_index ≡ l.chunk_index
      same = ground arith

  Agree-download_all :
      (n : ℕ) (ls : List ChunkPlacement)
      → IndexesFrom n ls
      → Agree n (download_all fetch ls) (fetch_all ls)
  unfolding download_all download_chunk join_results
  Agree-download_all n [] h = record { joined = refl; climbs = tt; above = tt }
  Agree-download_all n (l ∷ ls) h = elim (Option-cases (fetch l.chunk_id l.node_addresses)) [
    | inl out ↦ rw (out, download_all, download_chunk, fetch_all) refl
    | inr (c, got) ↦
        by_rest c got (download_all fetch ls) refl (Agree-download_all (l.chunk_index + 1) ls h.2)
  ]
    where
      by_rest :
          (c : List ℕ)
          → fetch l.chunk_id l.node_addresses ≡ some c
          → (rest : Option (List ChunkResult)) → download_all fetch ls ≡ rest
          → Agree (l.chunk_index + 1) rest (fetch_all ls)
          → Agree n (download_all fetch (l ∷ ls)) (fetch_all (l ∷ ls))
      by_rest c got none e failed =
          rw (got, e, download_all, download_chunk, fetch_all) (ap (joined_to c) failed)
      by_rest c got (some rs) e d =
          rw (got, e, download_all, download_chunk, fetch_all)
            (Downloaded-cons n l c (fetch_all ls) rs h.0 h.1 d)

  panics_download_long :
      (ls : List ChunkPlacement)
      → All (λ l. 12 ≤ length l.chunk_id) ls
      → panics_download fetch ls ≡ false
  unfolding panics_download short_id
  panics_download_long [] h = refl
  panics_download_long (l ∷ ls) h =
      let here : 12 ≤ length l.chunk_id = h.0 in
      let long : short_id l.chunk_id ≡ false = ground arith in
      elim (Option-cases (fetch l.chunk_id l.node_addresses)) [
        | inl out ↦ rw (panics_download, out) (panics_download_long ls h.1)
        | inr (c, got) ↦ rw (panics_download, got, long) (panics_download_long ls h.1)
      ]

  -- Where the ids of the chunks have at least 12 bytes, which the message of progress shows, and the
  -- indexes of the locations ascend, and whatever the order in which the goroutines append their
  -- results: a download returns the contents of the chunks, joined in the order of the locations, and
  -- it fails exactly if a chunk cannot be fetched.
  pub download_chunks-fetch_all :
      (arrive : List ChunkResult → List ChunkResult) (locations : List ChunkPlacement)
      → ((rs : List ChunkResult) → Perm (arrive rs) rs)
      → IndexesFrom 0 locations
      → All (λ l. 12 ≤ length l.chunk_id) locations
      → download_chunks arrive fetch locations ≡ fetch_all locations
  unfolding download_chunks
  download_chunks-fetch_all arrive locations shuffles h long =
      by_results (download_all fetch locations) refl (Agree-download_all 0 locations h)
    where
      calm : panics_download fetch locations ≡ false
      calm = panics_download_long locations long

      by_results :
          (r : Option (List ChunkResult))
          → download_all fetch locations ≡ r
          → Agree 0 r (fetch_all locations)
          → download_chunks arrive fetch locations ≡ fetch_all locations
      by_results none e failed = rw (download_chunks, calm, e) (sym failed)
      by_results (some rs) e d =
          rw (download_chunks, calm, e)
            (ap (λ l. some (join_results l))
                (sort_slice-Climbs rs (arrive rs) d.climbs (shuffles rs))
              ∙ sym d.joined)
