-- ===== src/Telemetry.antt =====
-- Public observations, crates/leelo-telemetry: records, their validation, and the emitter.
pub mod Vocabulary
pub mod Record
pub mod Emitter
pub mod Tests
