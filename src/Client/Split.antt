-- ===== src/Client/Split.antt =====
-- A file in chunks: `ChunkFile` and `ReassembleChunks` of internal/common/utils.go, and
-- `readAndChunkFile` of internal/client/transfer.go. Of a file the model has its contents, none where
-- it cannot be opened or read; a read fills the buffer while there are bytes left.
use mathlib.Core.List.{append-nil, append_assoc}
use sentinel_fs.Prelude.{
  ℕ, zero, suc, ◌+◌, ◌-◌, ◌%◌, ◌^◌, ◌≤◌, ◌≡◌, refl, ◌∙◌, ap, List, [], ◌∷◌, ◌++◌, Bool, true, false,
  Option, none, some, Str, Int64, take, drop, take-append-drop, length, length-take, length-append,
  if◌then◌else◌, arith,
}
use sentinel_fs.Chunks.{data_checksum}
use sentinel_fs.Config.{chunk_size}

-- The loop of reads of at most `size` bytes, up to the one that finds the end of the file.
unfoldable pub read_chunks : ℕ → ℕ → List ℕ → List (List ℕ)
read_chunks zero size contents = []
read_chunks (suc fuel) size [] = []
read_chunks (suc fuel) size (x ∷ contents) =
    take size (x ∷ contents) ∷ read_chunks fuel size (drop size (x ∷ contents))

-- A read for each byte is enough.
unfoldable pub chunk_file : Option (List ℕ) → Option (List (List ℕ))
unfolding read_chunks
chunk_file none = none
chunk_file (some contents) = some (read_chunks (length contents) chunk_size contents)

-- The chunks, the size and the checksum.
unfoldable pub read_and_chunk_file :
    (List ℕ → List ℕ) → Option (List ℕ) → Option (List (List ℕ) × Int64 × Str)
unfolding read_chunks data_checksum
read_and_chunk_file sha256 none = none
read_and_chunk_file sha256 (some contents) = some (
  read_chunks (length contents) chunk_size contents,
  length contents % 2 ^ 64,
  data_checksum sha256 contents,
)

-- `ReassembleChunks` after the file was created: whether it succeeds, and the file. `writes i` is
-- whether the write of chunk `i` succeeds.
unfoldable pub reassemble_from : (ℕ → Bool) → ℕ → List (List ℕ) → List ℕ → Bool × List ℕ
reassemble_from writes i [] file = (true, file)
reassemble_from writes i (c ∷ cs) file =
    let rest = reassemble_from writes (i + 1) cs (file ++ c) in
    if writes i then rest else (false, file)

abbrev pub concat : List (List ℕ) → List ℕ
concat [] = []
concat (c ∷ cs) = c ++ concat cs

-- Every chunk has `size` bytes, but for the last one, which has at least one and at most `size`.
abbrev pub Full : ℕ → List (List ℕ) → Type 0
Full size [] = Unit
Full size (c ∷ []) = (1 ≤ length c) × (length c ≤ size)
Full size (c ∷ d ∷ cs) = (length c ≡ size) × Full size (d ∷ cs)

length-drop : (n : ℕ) (xs : List ℕ) → length (drop n xs) ≡ length xs - n
length-drop zero xs = omega arith
length-drop (suc n) [] = omega arith
length-drop (suc n) (x ∷ xs) = omega (arith, length-drop n xs)

length-Full :
    (size : ℕ) (c : List ℕ) (cs : List (List ℕ))
    → 1 ≤ size
    → Full size (c ∷ cs)
    → 1 ≤ length (concat (c ∷ cs))
length-Full size c [] pos h = omega (arith, length-append c [], h.0)
length-Full size c (d ∷ cs) pos h = omega (arith, length-append c (concat (d ∷ cs)), h.0)

-- One more full chunk, or one that is not, before the end.
Full-take :
    (size : ℕ) (x : ℕ) (xs : List ℕ) (cs : List (List ℕ))
    → 1 ≤ size
    → concat cs ≡ drop size (x ∷ xs)
    → Full size cs
    → Full size (take size (x ∷ xs) ∷ cs)
Full-take size x xs [] pos same full =
    (omega (arith, length-take size (x ∷ xs)), omega (arith, length-take size (x ∷ xs)))
Full-take size x xs (c ∷ cs) pos same full = (
  omega (
    arith,
    length-take size (x ∷ xs),
    length-drop size (x ∷ xs),
    ap length same,
    length-Full size c cs pos full,
  ),
  full,
)

pub Full-read_chunks :
    (fuel size : ℕ) (contents : List ℕ)
    → 1 ≤ size
    → length contents ≤ fuel
    → (concat (read_chunks fuel size contents) ≡ contents)
      × Full size (read_chunks fuel size contents)
unfolding read_chunks
Full-read_chunks zero size [] pos h = (refl, tt)
Full-read_chunks zero size (x ∷ xs) pos h = absurd (omega (arith, h))
Full-read_chunks (suc fuel) size [] pos h = (refl, tt)
Full-read_chunks (suc fuel) size (x ∷ xs) pos h =
    let (same, full) =
      Full-read_chunks fuel size (drop size (x ∷ xs)) pos
        (omega (arith, length-drop size (x ∷ xs))) in
    (
      ap (λ l. take size (x ∷ xs) ++ l) same ∙ take-append-drop size (x ∷ xs),
      Full-take size x xs (read_chunks fuel size (drop size (x ∷ xs))) pos same full,
    )

reassemble_from-concat :
    (writes : ℕ → Bool) (i : ℕ) (cs : List (List ℕ)) (file : List ℕ)
    → ((j : ℕ) → writes j ≡ true)
    → reassemble_from writes i cs file ≡ (true, file ++ concat cs)
unfolding reassemble_from
reassemble_from-concat writes i [] file h = rw (append-nil file) refl
reassemble_from-concat writes i (c ∷ cs) file h = rw (h i) (
    reassemble_from-concat writes (i + 1) cs (file ++ c) h
    ∙ rw (append_assoc file c (concat cs)) refl)

-- A file is split into chunks that have, joined in order, its contents, each of exactly 4 MB but for
-- the last one, which is not empty and not longer; an empty file has no chunks. If the writes succeed,
-- reassembling the chunks writes the file.
pub chunk_file-Full :
    (contents : List ℕ)
    → (chunks : List (List ℕ)) × (chunk_file (some contents) ≡ some chunks)
      × (concat chunks ≡ contents)
      × Full chunk_size chunks
      × ((writes : ℕ → Bool)
          → ((i : ℕ) → writes i ≡ true)
          → reassemble_from writes 0 chunks [] ≡ (true, contents))
unfolding chunk_file
chunk_file-Full contents =
    let (same, full) =
      Full-read_chunks (length contents) chunk_size contents (omega arith) (omega arith) in
    (
      read_chunks (length contents) chunk_size contents,
      refl,
      same,
      full,
      λ writes h.
          reassemble_from-concat writes 0 (read_chunks (length contents) chunk_size contents) [] h
          ∙ ap (λ file. (true, file)) same,
    )
