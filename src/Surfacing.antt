-- ===== src/Surfacing.antt =====
-- From the findings of the calls to those that are posted: the stages of `_collect_findings` of
-- engine/engine.py behind the fan-out, engine/reflect.py and engine/rules.py.
pub mod Config
pub mod Rules
pub mod Stages
pub mod Reflect
pub mod Pipeline
