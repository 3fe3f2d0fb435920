-- ===== src/Compress.antt =====
-- engine/compress.py: token counting, batches, and the walk over hunks.
pub mod Tokens
pub mod Hunks
pub mod Slices
pub mod Batch
pub mod Expand
