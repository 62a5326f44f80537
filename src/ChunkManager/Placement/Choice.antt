-- ===== src/ChunkManager/Placement/Choice.antt =====
-- `selectNodes` takes the best candidates, and the sizes of a file's chunks add up.
use mathlib.Core.List.{Perm}
use sentinel_fs.Prelude.{
  ℕ, zero, suc, ◌+◌, ◌*◌, ◌-◌, ◌^◌, ◌≤◌, ◌<◌, ◌≡◌, List, ◌++◌, [], ◌∷◌, true, false, ltb, take,
  if◌then◌else◌, All, drop, take-append-drop, length, Int64, sub64, slt64, arith, min,
}
use sentinel_fs.Float64.{is_nan, flt, feq}
use sentinel_fs.Config.{chunk_size}
use sentinel_fs.Sorting.{sort_slice}
use sentinel_fs.Sorting.Order.{Orders, sort_slice-perm, sort_slice-Rises, Rises-take}
use sentinel_fs.ChunkManager.Placement.{Candidate, less, select_nodes, size_of_chunk}
use sentinel_fs.ChunkManager.Placement.Replication.{length-select_nodes}

-- The risk score of a candidate is a number.
abbrev pub HasRisk : Candidate → Type 0
HasRisk c = is_nan c.1.risk_score ≡ false

less-Orders : Orders less HasRisk
unfolding less flt feq
less-Orders = record {
  asym = λ a b pa pb h. ground arith;
  through = λ a b c pa pb pc h k. ground arith;
}

-- The one candidate has no lower risk than the other, nor the same risk and fewer chunks.
abbrev pub NotBefore : Candidate → Candidate → Type 0
NotBefore u c =
    (flt u.1.risk_score c.1.risk_score ≡ false)
    × (feq u.1.risk_score c.1.risk_score ≡ true → length c.1.chunks ≤ length u.1.chunks)

less-NotBefore : (u c : Candidate) → less u c ≡ false → NotBefore u c
unfolding less flt feq
less-NotBefore u c h = ((ground arith), λ same. ground arith)

All-NotBefore :
    (c : Candidate) (rest : List Candidate)
    → All (λ u. less u c ≡ false) rest
    → All (λ u. NotBefore u c) rest
All-NotBefore c [] h = tt
All-NotBefore c (u ∷ rest) h = (less-NotBefore u c h.0, All-NotBefore c rest h.1)

All-All-NotBefore :
    (chosen rest : List Candidate)
    → All (λ c. All (λ u. less u c ≡ false) rest) chosen
    → All (λ c. All (λ u. NotBefore u c) rest) chosen
All-All-NotBefore [] rest h = tt
All-All-NotBefore (c ∷ chosen) rest h =
    (All-NotBefore c rest h.0, All-All-NotBefore chosen rest h.1)

-- If no risk score is NaN, the candidates are the chosen ones and a rest, `count` are chosen if there
-- are so many, and no candidate of the rest has a lower risk than a chosen one, nor the same risk
-- and fewer chunks.
pub select_nodes_best :
    (candidates : List Candidate) (count : ℕ)
    → All HasRisk candidates
    → let chosen = select_nodes candidates count in
      (rest : List Candidate) × Perm (chosen ++ rest) candidates
      × (length chosen ≡ min count (length candidates))
      × All (λ c. All (λ u. NotBefore u c) rest) chosen
unfolding select_nodes
select_nodes_best candidates count h = (
  drop cut sorted,
  rw take-append-drop (sort_slice-perm less candidates),
  length-select_nodes candidates count,
  All-All-NotBefore (take cut sorted) (drop cut sorted) (
      Rises-take less HasRisk less-Orders cut sorted
        (sort_slice-Rises less HasRisk less-Orders candidates h)),
)
  where
    sorted : List Candidate
    sorted = sort_slice less candidates

    cut : ℕ
    cut = if ltb (length sorted) count then length sorted else count

-- The sizes of the chunks from `i` on.
abbrev pub total_size : Int64 → ℕ → ℕ → ℕ
total_size file_size zero i = 0
total_size file_size (suc rounds) i =
    size_of_chunk file_size i + total_size file_size rounds (i + 1)

size_of_chunk-min :
    (file_size i : ℕ)
    → file_size < 2 ^ 63
    → i * chunk_size ≤ file_size
    → size_of_chunk file_size i ≡ min chunk_size (file_size - i * chunk_size)
unfolding size_of_chunk sub64 slt64
size_of_chunk-min file_size i fits starts = ground arith

total_size-min :
    (file_size rounds i : ℕ)
    → file_size < 2 ^ 63
    → (i + rounds) * chunk_size ≤ file_size + chunk_size
    → total_size file_size rounds i ≡ min (rounds * chunk_size) (file_size - i * chunk_size)
total_size-min file_size zero i fits h = omega arith
total_size-min file_size (suc rounds) i fits h = omega (
  arith,
  size_of_chunk-min file_size i fits (omega arith),
  total_size-min file_size rounds (i + 1) fits (omega arith),
)

-- For a file below 2 ^ 63 bytes and the count of chunks that covers it with none to spare, the sizes
-- of the chunks are positive, at most the chunk size, and add up to the size of the file.
pub size_of_chunk-total :
    (file_size chunk_count : ℕ)
    → file_size < 2 ^ 63
    → file_size ≤ chunk_count * chunk_size
    → chunk_count * chunk_size < file_size + chunk_size
    → (total_size file_size chunk_count 0 ≡ file_size)
      × ((i : ℕ)
          → i < chunk_count
          → (0 < size_of_chunk file_size i) × (size_of_chunk file_size i ≤ chunk_size))
size_of_chunk-total file_size chunk_count fits covers tight = (
  omega (arith, total_size-min file_size chunk_count 0 fits (omega arith)),
  λ i h. (
    omega (arith, size_of_chunk-min file_size i fits (omega arith)),
    omega (arith, size_of_chunk-min file_size i fits (omega arith)),
  ),
)
