-- ===== src/Index.antt =====
-- `IvfRabitqIndex` of src/index_ivf_rq.rs: the partitions of codes, the raw vectors and payloads by
-- identifier, and what is computed from them.
pub mod Defs
pub mod Sq8
pub mod Search
pub mod Flat
pub mod Add
pub mod Parts
pub mod Rebuild
pub mod Restored
pub mod Kmeans
pub mod Seeds
pub mod Clusters
pub mod Build
pub mod Filled
pub mod Entries
pub mod Built
