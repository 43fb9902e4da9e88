-- ===== src/Collector.antt =====
-- The collector, crates/leelo-collector: reconciling the inventory with what was observed.
pub mod Types
pub mod Boots
pub mod Files
pub mod Enrollments
pub mod Journal
pub mod Render
pub mod Tests
