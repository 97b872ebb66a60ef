-- ===== src/Tests.antt =====
-- Concrete inputs at which the theorems apply.
pub mod Number
pub mod Filters
pub mod Tiny
pub mod Files
pub mod Scans
pub mod Sizes
pub mod Saved
pub mod Opened
pub mod Created
pub mod Pools
pub mod Clusters
pub mod Requests
