-- ===== src/MetaServer.antt =====
-- The request handlers of internal/metaserver/server.go, over the namespace and the chunk manager. A
-- handler calls both, each call under its own lock; here no other call comes in between,
-- but in `get_file_during`.
pub mod Messages
pub mod FileRequests
pub mod NodeRequests
pub mod Adapter
pub mod Requests
pub mod Monitoring
pub mod Migration
pub mod Steps
pub mod Reached
pub mod Readback
pub mod Admin
