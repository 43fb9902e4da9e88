-- ===== src/Protocol.antt =====
-- crates/leelo-protocol: the messages of the client and the evaluator.
pub mod Wire
pub mod Exact
pub mod Tests
