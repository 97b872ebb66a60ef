-- ===== src/Mmap.antt =====
-- src/mmap_index.rs: the file in chunks, with a cache.
pub mod Chunks
pub mod Read
