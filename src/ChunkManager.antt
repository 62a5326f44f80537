-- ===== src/ChunkManager.antt =====
-- internal/metaserver/chunk_manager.go, in one module for each part of it.
pub mod State
pub mod Nodes
pub mod Placement
pub mod Locations
pub mod Replicas
pub mod Stats
pub mod Invariant
pub mod Registration
