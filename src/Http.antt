-- ===== src/Http.antt =====
-- The requests of src/http_server.rs.
pub mod Defs
pub mod Batch
pub mod Route
