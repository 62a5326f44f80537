-- ===== src/Chunks.antt =====
-- internal/common/utils.go: chunk ids and checksums. `sha256` is `crypto/sha256.Sum256` of a byte
-- string, as the bytes of its digest; nothing here rests on which function it is.
use sentinel_fs.Prelude.{
  ℕ, ◌+◌, ◌/◌, ◌%◌, List, [], ◌∷◌, ◌++◌, Str, bytes, itoa, take, ltb, if◌then◌else◌,
}

-- One digit of `%x`.
abbrev hex_digit : ℕ → ℕ
hex_digit d = if ltb d 10 then 48 + d else 87 + d

-- `%x` of a byte slice.
unfoldable pub hex : List ℕ → Str
hex [] = []
hex (b ∷ bs) = hex_digit (b / 16) ∷ hex_digit (b % 16) ∷ hex bs

module _ (sha256 : List ℕ → List ℕ) where
  unfoldable pub generate_chunk_id : Str → ℕ → Str
  unfolding hex
  generate_chunk_id file_path chunk_index =
      hex (take 8 (sha256 (file_path ++ bytes ":chunk:" ++ itoa chunk_index)))

  unfoldable pub data_checksum : List ℕ → Str
  unfolding hex
  data_checksum contents = hex (sha256 contents)
