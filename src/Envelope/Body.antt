-- ===== src/Envelope/Body.antt =====
-- The body of an envelope and its signature, crates/leelo-envelope/src/lib.rs. Parameters: the hash,
-- the check of public keys, and Ed25519's `sign` and `verify` of crates/leelo-crypto.
pub mod Canonical
pub mod Signed
use leelo.Base.{
  ℕ, zero, suc, ◌-◌, Bool, true, false, not, ◌&&◌, ◌||◌, ltb, ◌==◌, if◌then◌else◌, List, [], ◌∷◌,
  ◌++◌, map, length, bytes_eq, codes, Option, none, some, Result, ok, err, ◌>>=◌, ◌>>◌, guard,
}
use leelo.Envelope.Cbor.{Cbor}
use leelo.Envelope.Types.{
  Error, malformed, too_large, non_canonical, invalid_signature, NetworkBinding, Descriptor,
  TpmBlob, WrappedKey, WrappedLeaf, EnvelopeBody, AuthenticatedEnvelope, max_envelope, max_tpm_blob,
}
use leelo.Envelope.Read.{or_malformed, read_u8, arr, fixed_bytes, bounded_bytes, bounded_array}
use leelo.Envelope.Descriptor.{descriptor_bytes, read_descriptor, context_hash}

abbrev pub is_outside : ℕ → List ℕ → Bool
is_outside max b = length b == 0 || ltb max (length b)

-- The node identifiers that the leaves must have, in this order.
abbrev pub expected_ids : Descriptor → List ℕ
expected_ids d = d.policy.tpm_node_id ∷ map (λ (n : NetworkBinding). n.node_id) d.networks

abbrev pub leaf_node_ids : List WrappedLeaf → List ℕ
leaf_node_ids leaves = map (λ (l : WrappedLeaf). l.node_id) leaves

module _ (c : Cbor) where
  unfoldable pub put_wrapped : WrappedKey → List ℕ
  put_wrapped w = c.put_array 2 ++ (c.put_bytes w.nonce ++ c.put_bytes w.ciphertext)

  unfoldable pub get_wrapped : List ℕ → Result Error (WrappedKey × List ℕ)
  unfolding arr fixed_bytes
  get_wrapped input = do
    r₁ ← arr c 2 input
    (nonce, r₂) ← fixed_bytes c 12 r₁
    (ciphertext, r₃) ← fixed_bytes c 48 r₂
    ok (record { nonce = nonce; ciphertext = ciphertext }, r₃)

  unfoldable pub put_leaves : List WrappedLeaf → List ℕ
  unfolding put_wrapped
  put_leaves [] = []
  put_leaves (l ∷ leaves) =
      c.put_array 2 ++ (c.put_u8 l.node_id ++ (put_wrapped l.value ++ put_leaves leaves))

  unfoldable pub get_leaves : ℕ → List ℕ → Result Error (List WrappedLeaf × List ℕ)
  unfolding arr get_wrapped
  get_leaves zero input = ok ([], input)
  get_leaves (suc count) input = do
    r₁ ← arr c 2 input
    (node_id, r₂) ← read_u8 c r₁
    (value, r₃) ← get_wrapped r₂
    (leaves, r₄) ← get_leaves count r₃
    ok (record { node_id = node_id; value = value } ∷ leaves, r₄)

  -- What `body_bytes` writes, with the encoded descriptor.
  unfoldable pub put_body : List ℕ → EnvelopeBody → List ℕ
  unfolding put_leaves put_wrapped
  put_body desc b =
      c.put_array 4
      ++ (c.put_bytes desc
          ++ (c.put_array 4
              ++ (c.put_bytes b.tpm.public
                  ++ (c.put_bytes b.tpm.private
                      ++ (c.put_bytes b.tpm.name
                          ++ (c.put_bytes b.tpm.parent_name
                              ++ (c.put_array (length b.leaves)
                                  ++ (put_leaves b.leaves ++ put_wrapped b.payload))))))))

  unfoldable pub get_tpm : List ℕ → Result Error (TpmBlob × List ℕ)
  unfolding arr bounded_bytes
  get_tpm input = do
    r₁ ← arr c 4 input
    (public, r₂) ← bounded_bytes c max_tpm_blob r₁
    (private, r₃) ← bounded_bytes c max_tpm_blob r₂
    (name, r₄) ← bounded_bytes c 68 r₃
    (parent_name, r₅) ← bounded_bytes c 68 r₄
    ok (record { public = public; private = private; name = name; parent_name = parent_name }, r₅)

  -- The two parts of a signed envelope.
  unfoldable pub put_envelope : List ℕ → List ℕ → List ℕ
  put_envelope body signature = c.put_array 2 ++ (c.put_bytes body ++ c.put_bytes signature)

  unfoldable pub get_envelope : List ℕ → Result Error (List ℕ × List ℕ)
  unfolding arr fixed_bytes
  get_envelope raw = do
    r₁ ← arr c 2 raw
    (raw_body, r₂) ← or_malformed (c.get_bytes r₁)
    (signature, r₃) ← fixed_bytes c 64 r₂
    guard (length r₃ == 0) malformed
    ok (raw_body, signature)

  module _ (hash : List ℕ → List ℕ) (valid_key : List ℕ → Bool) where
    unfoldable pub body_bytes : EnvelopeBody → Result Error (List ℕ)
    unfolding descriptor_bytes put_body
    body_bytes b = do
      desc ← descriptor_bytes c hash valid_key b.descriptor
      guard
          (not (
            is_outside max_tpm_blob b.tpm.public
            || is_outside max_tpm_blob b.tpm.private
            || is_outside 68 b.tpm.name
            || is_outside 68 b.tpm.parent_name))
          too_large
      guard (bytes_eq (leaf_node_ids b.leaves) (expected_ids b.descriptor)) malformed
      guard (not (ltb (max_envelope - 128) (length (put_body desc b)))) too_large
      ok (put_body desc b)

    -- `read_body` up to the body itself.
    unfoldable pub parse_body : List ℕ → Result Error EnvelopeBody
    unfolding arr read_descriptor get_tpm bounded_array get_leaves get_wrapped
    parse_body raw = do
      r₁ ← arr c 4 raw
      (desc, r₂) ← or_malformed (c.get_bytes r₁)
      descriptor ← read_descriptor c hash valid_key desc
      (tpm, r₃) ← get_tpm r₂
      (count, r₄) ← bounded_array c 31 r₃
      (leaves, r₅) ← get_leaves count r₄
      (payload, r₆) ← get_wrapped r₅
      guard (length r₆ == 0) malformed
      ok (record { descriptor = descriptor; tpm = tpm; leaves = leaves; payload = payload })

    unfoldable pub read_body : List ℕ → Result Error EnvelopeBody
    unfolding parse_body body_bytes
    read_body raw = do
      body ← parse_body raw
      encoded ← body_bytes body
      guard (bytes_eq encoded raw) non_canonical
      ok body

unfoldable pub sign_input : List ℕ → List ℕ
sign_input body = codes "leelo/v1/envelope" ++ (0 ∷ body)

-- `.map_err(|_| Error::InvalidSignature)?`
abbrev pub or_invalid_signature {ℓ} : {A : Type ℓ} → Option A → Result Error A
or_invalid_signature none = err invalid_signature
or_invalid_signature (some a) = ok a

module _ (c : Cbor) (hash : List ℕ → List ℕ) (valid_key : List ℕ → Bool) where
  -- `signer` is the key's `sign`.
  unfoldable pub sign : (List ℕ → Option (List ℕ)) → EnvelopeBody → Result Error (List ℕ)
  unfolding body_bytes sign_input put_envelope
  sign signer body = do
    bytes ← body_bytes c hash valid_key body
    sig ← or_invalid_signature (signer (sign_input bytes))
    ok (put_envelope c bytes sig)

  -- `verify` is `leelo_crypto::verify` at a trusted key, a message and a signature.
  unfoldable pub authenticate :
      (List ℕ → List ℕ → List ℕ → Bool) → List ℕ → List ℕ → Result Error AuthenticatedEnvelope
  unfolding get_envelope put_envelope sign_input read_body context_hash
  authenticate verify raw trusted_key = do
    guard (not (ltb max_envelope (length raw))) too_large
    (raw_body, signature) ← get_envelope c raw
    guard (verify trusted_key (sign_input raw_body) signature) invalid_signature
    guard (bytes_eq (put_envelope c raw_body signature) raw) non_canonical
    body ← read_body c hash valid_key raw_body
    context ← context_hash c hash valid_key body.descriptor
    ok (record { body = body; context = context })
