-- ===== src/Engine.antt =====
-- crates/leelo-engine.
pub mod Release
