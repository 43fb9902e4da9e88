-- ===== src/Envelope.antt =====
-- crates/leelo-envelope: the signed description of one enrollment, in deterministic CBOR.
pub mod Cbor
pub mod Types
pub mod Read
pub mod Node
pub mod Descriptor
pub mod Body
pub mod Tests
