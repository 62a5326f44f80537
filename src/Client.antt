-- ===== src/Client.antt =====
-- The client of internal/client.
pub mod Fetch
pub mod Split
pub mod Upload
pub mod Download
pub mod Files
pub mod RoundTrip
pub mod System
