-- ===== src/Search.antt =====
-- src/search.rs: the partitions a query scans, the scan, and the ranking of what it finds.
pub mod Defs
pub mod Run
pub mod Scan
unfoldable pub use Defs.*
unfoldable pub use Run.*
