-- ===== src/Namespace.antt =====
-- internal/metaserver/namespace.go, in one module for each part of it.
pub mod Paths
pub mod Tree
pub mod Files
