-- ===== src/Vdb.antt =====
-- src/vdb.rs: a database directory with its manifest and the index files of its versions.
pub mod Disk
pub mod Defs
pub mod Reopen
pub mod Create
pub mod Crash
pub mod Compact
