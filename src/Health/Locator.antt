-- ===== src/Health/Locator.antt =====
-- What the migrator of internal/health/migrator.go asks of the owner of the chunks.
use sentinel_fs.Prelude.{List, Option, Str}

-- A node that can receive chunks.
pub record NodeTarget : Type 0 where
  pub node_id : Str
  pub address : Str

-- The interface `ChunkLocator`, with the state of type `S` behind it written out.
pub record ChunkLocator (S : Type 0) : Type 0 where
  pub get_chunks_on_node : S → Str → List Str
  pub get_chunk_meta : S → Str → Option (List Str)
  pub get_healthy_node_addresses : S → List Str → List NodeTarget
  pub add_chunk_to_node : Str → Str → S → S
  pub remove_chunk_from_node : Str → Str → S → S
  pub get_node_address : S → Str → Option Str
