-- ===== src/DataNode.antt =====
-- The data node of internal/datanode.
pub mod Store
pub mod Health
pub mod Server
pub mod Admin
