-- ===== src/Tests.antt =====
-- Concrete inputs for the theorems, and runs of the definitions.
mod Diff
mod Compress
mod Text
mod Findings
mod Filters
mod Triage
mod Command
mod Recovery
mod Preparation
mod Surfacing
