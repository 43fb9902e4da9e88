-- ===== src/Sss.antt =====
-- crates/leelo-sss: Shamir sharing of 32-byte secrets over GF(256).
pub mod Share
pub mod Gf256
pub mod Xor
pub mod Bytes
pub mod Linear
pub mod Field
pub mod Polynomial
pub mod Lagrange
pub mod Interpolant
pub mod Interpolation
pub mod ByteField
pub mod Weights
pub mod Nodes
pub mod Recovery
pub mod Reconstruct
pub mod Splitting
pub mod RoundTrip
pub mod Secrecy
pub mod Disagreement
pub mod Fit
pub mod Accepted
pub mod Sharing
pub mod Tests
