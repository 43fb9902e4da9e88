-- ===== src/Protocol/Tests.antt =====
-- Messages of crates/leelo-protocol/src/wire.rs.
use leelo.Base.{◌≡◌, ◌↔◌, refl, length, replicate, ok, err, take}
use leelo.Protocol.Wire.{
  Request, Evaluation, invalid_message, encode_request, decode_request, encode_response,
  decode_response,
}
use leelo.Protocol.Exact.{decode_request_iff, decode_response_iff}

abbrev request : Request
request = record { key_id = replicate 32 4; point = replicate 49 2 }

abbrev evaluation : Evaluation
evaluation = record { element = replicate 49 2; proof = replicate 96 3 }

short_request :
    decode_request (take 88 (encode_request (replicate 32 4) (replicate 49 2)))
    ≡ err invalid_message
unfolding decode_request encode_request
short_request = refl

decode_request_iff_example :
    (decode_request (encode_request (replicate 32 4) (replicate 49 2)) ≡ ok request) ↔ (
      (length request.key_id ≡ 32)
      × (length request.point ≡ 49)
      × (encode_request (replicate 32 4) (replicate 49 2)
          ≡ encode_request request.key_id request.point))
decode_request_iff_example =
    decode_request_iff (encode_request (replicate 32 4) (replicate 49 2)) request

decode_response_iff_example : (decode_response (encode_response evaluation) ≡ ok evaluation) ↔ (
    (length evaluation.element ≡ 49)
    × (length evaluation.proof ≡ 96)
    × (encode_response evaluation ≡ encode_response evaluation))
decode_response_iff_example = decode_response_iff (encode_response evaluation) evaluation
