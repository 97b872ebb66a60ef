-- ===== src/Hybrid.antt =====
-- src/hybrid.rs: the fusion of ranked lists.
pub mod Defs
pub mod Scores
pub mod Ranking
unfoldable pub use Defs.*
