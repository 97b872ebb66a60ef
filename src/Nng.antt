-- ===== src/Nng.antt =====
-- src/nng_server.rs: the binary protocol.
pub mod Wire
pub mod Server
pub mod Formats
pub mod Stream
