-- ===== src/Protocol/Wire.antt =====
-- crates/leelo-protocol/src/wire.rs and the key identifier of src/lib.rs. An array that is filled by
-- `copy_from_slice` into consecutive ranges is the ranges one after the other.
use leelo.Base.{
  ℕ, ◌-◌, List, [], ◌∷◌, ◌++◌, ◌==◌, ◌||◌, not, if◌then◌else◌, bytes_eq, length, take, drop, Result,
  ok, err,
}

abbrev pub request_bytes : ℕ
request_bytes = 89

abbrev pub response_bytes : ℕ
response_bytes = 153

-- `b"LEEL"` and the versions and mode of the protocol.
abbrev pub header : List ℕ
header = 76 ∷ 69 ∷ 69 ∷ 76 ∷ 1 ∷ 1 ∷ 1 ∷ 0 ∷ []

pub data InvalidMessage : Type 0 where
  invalid_message : InvalidMessage

pub record Request : Type 0 where
  pub key_id : List ℕ
  pub point : List ℕ

-- `Evaluation` of crates/leelo-crypto/src/voprf.rs.
pub record Evaluation : Type 0 where
  pub element : List ℕ
  pub proof : List ℕ

-- `bytes[first..last]`.
abbrev pub slice : List ℕ → ℕ → ℕ → List ℕ
slice bytes first last = take (last - first) (drop first bytes)

unfoldable pub encode_request : List ℕ → List ℕ → List ℕ
encode_request key_id point = header ++ (key_id ++ point)

unfoldable pub decode_request : List ℕ → Result InvalidMessage Request
decode_request bytes =
    if not (length bytes == request_bytes) || not (bytes_eq (take 8 bytes) header)
    then err invalid_message
    else ok (record { key_id = slice bytes 8 40; point = drop 40 bytes })

unfoldable pub encode_response : Evaluation → List ℕ
encode_response evaluation = header ++ (evaluation.element ++ evaluation.proof)

unfoldable pub decode_response : List ℕ → Result InvalidMessage Evaluation
decode_response bytes =
    if not (length bytes == response_bytes) || not (bytes_eq (take 8 bytes) header)
    then err invalid_message
    else ok (record { element = slice bytes 8 57; proof = drop 57 bytes })

-- The hash is `hash_context` of crates/leelo-crypto.
unfoldable pub key_id : (List ℕ → List ℕ) → List ℕ → List ℕ
key_id hash_context public = take 32 (hash_context public)
