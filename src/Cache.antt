-- ===== src/Cache.antt =====
-- src/cache.rs: the sparse-file block cache.
pub mod Intervals
pub mod Bitmap
pub mod Blocks
pub mod Meta
pub mod Entry
pub mod Coalescer
pub mod Staging
pub mod Tests
