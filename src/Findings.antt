-- ===== src/Findings.antt =====
-- What the engine does with the findings of all calls: engine/engine.py (its stages on findings),
-- engine/conflicts.py, engine/severity.py and engine/suppress.py.
pub mod Model
pub mod Scan
pub mod Cap
pub mod Merge
pub mod Conflicts
pub mod Anchor
pub mod Suppress
pub mod Ceiling
pub mod Labels
pub mod SelfTalk
pub mod Bound
