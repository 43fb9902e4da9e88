-- ===== src/Policy.antt =====
-- crates/leelo-policy: validated threshold policies, their compiled plan, and the release session.
pub mod Tree
pub mod Verified
pub mod Check
pub mod Layout
pub mod Semantics
pub mod Certificate
pub mod Admitted
pub mod Compile
pub mod Admissible
pub mod Compiled
pub mod Refusals
pub mod Admission
pub mod Responses
pub mod Satisfied
pub mod Answers
pub mod LeafIds
pub mod Runs
pub mod Decision
pub mod Session
pub mod Tests
