-- ===== src/Examples.antt =====
-- Tests of the definitions, and the theorems at concrete inputs.
pub mod Cluster
pub mod Answers
pub mod Files
pub mod Storage
pub mod Requests
pub mod Monitoring
pub mod Migrations
pub mod Transfers
pub mod Readback
pub mod Races
