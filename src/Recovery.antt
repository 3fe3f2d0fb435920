-- ===== src/Recovery.antt =====
-- The model calls of a review: engine/run.py, engine/recovery.py, engine/repair.py, and the calls of a
-- lens in engine/engine.py.
pub mod Provider
pub mod Run
pub mod Reasons
pub mod Split
pub mod Repair
pub mod Call
pub mod Pieces
pub mod Ladder
pub mod Lens
pub mod Rescue
pub mod FanOut
pub mod Spending
pub mod Ending
