-- ===== src/Storage.antt =====
-- src/storage.rs: the header, the partition table, the manifest and the checksum of an index file.
pub mod Fields
pub mod Header
pub mod Checksum
pub mod RoundTrip
pub mod Streaming
pub mod Io
pub mod Save
pub mod Load
pub mod Layout
pub mod Reading
pub mod Storable
pub mod Masking
pub mod Found
pub mod Reload
pub mod Rejects
pub mod Width
