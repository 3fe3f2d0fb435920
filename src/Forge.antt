-- ===== src/Forge.antt =====
-- What the adapters of the forges share: core/paginate.py.
pub mod Pages
