-- ===== src/Lib.antt =====
-- Leelo recovers the key of an encrypted disk when a TPM and enough of a nested threshold of
-- network providers agree. This library models its decision logic in Rust, crate by crate:
--
-- crates/leelo-policy decides who may unlock. `ProductionPolicy::new` compiles a tree of providers
-- (NetworkNode) to a postorder plan of gates, checks the plan against the tree, and a
-- `PolicySession` then accumulates authenticated observations until one release is allowed.
--   Policy/Tree, Policy/Verified    verified_compile.rs's tree; verified.rs: gates, the evaluator,
--                                   record_response and ReleaseState
--   Policy/Check, Policy/Check/Gates  verified_compile.rs: the certificate checker
--   Policy/Compile                  lib.rs: the compiler and ProductionPolicy::new
--   Policy/Responses                lib.rs: NetworkPlan::responses and network_satisfied
--   Policy/Session, .../Calls       lib.rs: PolicySession, and any sequence of its methods
--   Policy/Layout, Policy/Satisfied, Policy/Admissible   specifications: the plan of a tree, what a
--                                   tree means for a set of answers, the limits of a policy
--   the other files                 proofs, named for what they prove
-- A method that takes `&mut self` returns the state after it and its result.
--
-- crates/leelo-engine orders the evidence of one recovery by a gate, release.rs (Engine/Release);
-- Engine/Release/Order models any sequence of calls of the gate.
--
-- crates/leelo-sss shares 32-byte secrets over GF(256).
--   Sss/Share, Sss/Sharing          lib.rs: shares, errors, `split` and `reconstruct`
--   Sss/Interpolation               interpolation.rs: evaluation, Lagrange weights, weighted sum
--   Sss/Gf256                       gf256.rs: the arithmetic, shift for shift
--   Sss/Xor, Bytes, Linear, Field, ByteField   the bytes as a field
--   Sss/Polynomial, Lagrange, Interpolant      Lagrange interpolation over any such field
--   Sss/Weights, Nodes, Recovery, Reconstruct, Splitting, RoundTrip,
--   Disagreement, Fit, Accepted, Secrecy   the source's loops against it
-- The random generator of `split` is a parameter, `fill`, for `try_fill_bytes`; the hypothesis
-- `Fills` says that it fills the whole buffer with bytes when it succeeds.
--
-- crates/leelo-protocol frames what client and evaluator exchange: Protocol/Wire is wire.rs and the
-- key identifier of lib.rs, whose hash is a parameter; Protocol/Exact has the proofs.
--
-- crates/leelo-envelope encodes what a disk's token stores, as CBOR with a signature; all of it is
-- lib.rs. Its parameters are the CBOR coder (record Cbor, for minicbor, with the laws IsCbor of its
-- primitives), the SHA-384 hash, the check of public keys, the signer and the verifier.
--   Envelope/Types, Read, Node      the types, the readers' limits, provider trees
--   Envelope/Descriptor             validation, encoding and reading, derived contexts
--   Envelope/Body                   bodies, `sign` and `authenticate`
--   the other files                 proofs, named for what they prove
--
-- crates/leelo-collector reconciles an inventory of expected boots and enrollments with what was
-- observed, and reports counts. reconcile.rs is modelled; files, JSON and the clock are parameters.
--   Collector/Types, Boots          the records; how an expected boot is classified
--   Collector/Files, Journal        `read_held`; the journal of an enrollment and its digits
--   Collector/Enrollments, Render   the loop over the enrollments; `render` and `run`
--   the files below them            proofs, named for what they prove
--
-- crates/leelo-telemetry emits public records on a socket that may refuse them, and validates them.
--   Telemetry/Vocabulary, Record    the admitted labels; `Record::valid` and `Record::decode`
--   Telemetry/Emitter               `Emitter::emit` and the fixed buffer; one call of `emit` takes the
--                                   clock's and the socket's answers as arguments
--   the files below it              proofs, named for what they prove
--
-- Numbers are naturals. The policy's indices are bounded by a plan of at most 31 nodes, bytes by 256,
-- and times and counts by the inventory's limits, so that few operations can wrap around: the shifts
-- and negations of gf256.rs and the emitter's two counters, which are written out. Texts, paths and
-- identifiers are lists of bytes. No recursion runs on fuel: trees and lists bound each loop, the
-- checker's depth is the source's, `get_node` counts the levels that its depth limit leaves, and
-- `decimal` prints at most 20 digits, enough for 64 bits. Ghost specifications for Verus in the
-- source are not translated; the theorems here are stated and proved independently of them.
--
-- Not modelled: the engine's orchestration, key slots, the daemon, the collector's socket and metrics,
-- the telemetry's boot identity and the command line, and sharing along the policy's tree
-- (`split_network`, `recover_network`). Cryptography and the TPM are third-party code.
pub mod Base
pub mod Collector
pub mod Engine
pub mod Envelope
pub mod Policy
pub mod Protocol
pub mod Sss
pub mod Telemetry
