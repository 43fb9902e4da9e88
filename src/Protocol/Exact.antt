-- ===== src/Protocol/Exact.antt =====
-- The decoders of crates/leelo-protocol/src/wire.rs accept exactly the encodings.
use leelo.Base.{
  ℕ, zero, suc, ◌+◌, ◌≡◌, ◌↔◌, refl, sym, ◌∙◌, ap, ap₂, subst, List, [], ◌∷◌, ◌++◌, bytes_eq→eq,
  bytes_eq_refl, length, take, drop, ok, ok_injective, arith, length-take, length-drop, take-drop,
  take-append_length, drop-append_length, length-append,
}
use leelo.Protocol.Wire.{
  header, Request, Evaluation, encode_request, decode_request, encode_response, decode_response,
}

drop-nil : (n : ℕ) → drop {A = ℕ} n [] ≡ []
drop-nil zero = refl
drop-nil (suc n) = refl

drop-drop : (n m : ℕ) (xs : List ℕ) → drop n (drop m xs) ≡ drop (m + n) xs
drop-drop n zero xs = ap (λ k. drop k xs) {x = n} {y = 0 + n} (omega arith)
drop-drop n (suc m) [] = drop-nil n ∙ sym (drop-nil (suc m + n))
drop-drop n (suc m) (x ∷ xs) =
    drop-drop n m xs ∙ ap (λ k. drop k (x ∷ xs)) {x = suc (m + n)} {y = suc m + n} (omega arith)

-- A message is its header and its two fields.
frame :
    (n m : ℕ) (bytes : List ℕ)
    → length bytes ≡ 8 + n + m
    → take 8 bytes ≡ header
    → bytes ≡ header ++ (take n (drop 8 bytes) ++ drop (8 + n) bytes)
frame n m bytes len h =
    sym (take-drop 8 bytes)
    ∙ ap₂ ◌++◌ h (
        sym (take-drop n (drop 8 bytes))
        ∙ ap (λ ys. take n (drop 8 bytes) ++ ys) (drop-drop n 8 bytes))

decode_request-accepts :
    (bytes : List ℕ)
    → length bytes ≡ 89
    → take 8 bytes ≡ header
    → decode_request bytes ≡ ok (record { key_id = take 32 (drop 8 bytes); point = drop 40 bytes })
unfolding decode_request
decode_request-accepts bytes len h = rw (h, bytes_eq_refl header, len) refl

decode_response-accepts :
    (bytes : List ℕ)
    → length bytes ≡ 153
    → take 8 bytes ≡ header
    → decode_response bytes
      ≡ ok (record { element = take 49 (drop 8 bytes); proof = drop 57 bytes })
unfolding decode_response
decode_response-accepts bytes len h = rw (h, bytes_eq_refl header, len) refl

decode_request-checks :
    (bytes : List ℕ) (r : Request)
    → decode_request bytes ≡ ok r
    → (length bytes ≡ 89) × (take 8 bytes ≡ header)
unfolding decode_request
decode_request-checks bytes r h = ground (arith, bytes_eq→eq (take 8 bytes) header)

decode_response-checks :
    (bytes : List ℕ) (e : Evaluation)
    → decode_response bytes ≡ ok e
    → (length bytes ≡ 153) × (take 8 bytes ≡ header)
unfolding decode_response
decode_response-checks bytes e h = ground (arith, bytes_eq→eq (take 8 bytes) header)

-- `decode_request` returns a request exactly when the bytes are the encoding of its key identifier
-- of 32 bytes and its point of 49.
pub decode_request_iff :
    (bytes : List ℕ) (r : Request)
    → (decode_request bytes ≡ ok r)
      ↔ ((length r.key_id ≡ 32) × (length r.point ≡ 49) × (bytes ≡ encode_request r.key_id r.point))
unfolding encode_request
decode_request_iff bytes r = (forward, backward)
  where
    forward :
        decode_request bytes ≡ ok r
        → (length r.key_id ≡ 32) × (length r.point ≡ 49) × (bytes ≡ header ++ (r.key_id ++ r.point))
    forward h =
        let (len, head) = decode_request-checks bytes r h in
        subst
          (λ (q : Request).
            (length q.key_id ≡ 32)
            × (length q.point ≡ 49)
            × (bytes ≡ header ++ (q.key_id ++ q.point)))
          (ok_injective (sym (decode_request-accepts bytes len head) ∙ h))
          (
            length-take 32 (drop 8 bytes) (omega (arith, length-drop 8 bytes, len)),
            omega (arith, length-drop 40 bytes, len),
            frame 32 49 bytes len head,
          )

    backward :
        (length r.key_id ≡ 32) × (length r.point ≡ 49) × (bytes ≡ header ++ (r.key_id ++ r.point))
        → decode_request bytes ≡ ok r
    backward (k, p, e) =
        subst (λ bs. decode_request bs ≡ ok r) (sym e)
          (decode_request-accepts (header ++ (r.key_id ++ r.point))
              (omega (arith, length-append r.key_id r.point, k, p)) refl
            ∙ (λ i. ok (record {
              key_id = take-append_length 32 r.key_id r.point k i;
              point = drop-append_length 32 r.key_id r.point k i;
            })))

-- `decode_response` returns an evaluation exactly when the bytes are the encoding of its element
-- of 49 bytes and its proof of 96.
pub decode_response_iff :
    (bytes : List ℕ) (e : Evaluation)
    → (decode_response bytes ≡ ok e)
      ↔ ((length e.element ≡ 49) × (length e.proof ≡ 96) × (bytes ≡ encode_response e))
unfolding encode_response
decode_response_iff bytes r = (forward, backward)
  where
    forward :
        decode_response bytes ≡ ok r
        → (length r.element ≡ 49)
          × (length r.proof ≡ 96)
          × (bytes ≡ header ++ (r.element ++ r.proof))
    forward h =
        let (len, head) = decode_response-checks bytes r h in
        subst
          (λ (q : Evaluation).
            (length q.element ≡ 49)
            × (length q.proof ≡ 96)
            × (bytes ≡ header ++ (q.element ++ q.proof)))
          (ok_injective (sym (decode_response-accepts bytes len head) ∙ h))
          (
            length-take 49 (drop 8 bytes) (omega (arith, length-drop 8 bytes, len)),
            omega (arith, length-drop 57 bytes, len),
            frame 49 96 bytes len head,
          )

    backward :
        (length r.element ≡ 49) × (length r.proof ≡ 96) × (bytes ≡ header ++ (r.element ++ r.proof))
        → decode_response bytes ≡ ok r
    backward (k, p, e) =
        subst (λ bs. decode_response bs ≡ ok r) (sym e)
          (decode_response-accepts (header ++ (r.element ++ r.proof))
              (omega (arith, length-append r.element r.proof, k, p)) refl
            ∙ (λ i. ok (record {
              element = take-append_length 49 r.element r.proof k i;
              proof = drop-append_length 49 r.element r.proof k i;
            })))
