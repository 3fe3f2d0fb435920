-- ===== src/Diff.antt =====
-- core/diffparse.py, core/diff.py and core/diffbuild.py: reading, indexing, splitting and writing
-- unified diffs.
pub mod Header
pub mod Walk
pub mod Hunk
pub mod Index
pub mod Count
pub mod Split
pub mod Locate
pub mod Build
pub mod Skip
