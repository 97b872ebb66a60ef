-- ===== src/Stats.antt =====
-- `PartitionStats` of src/index_ivf_rq.rs: the number ranges and the string sets of a partition,
-- from which the SQL filter is decided for the partition as a whole.
pub mod Covers
pub mod Defs
unfoldable pub use Defs.*
