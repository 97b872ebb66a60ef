-- ===== src/Pool.antt =====
-- src/thread_pool.rs: a fixed number of workers that take tasks from one queue.
pub mod Defs
pub mod Tasks
pub mod Wait
pub mod Manned
pub mod Drain
