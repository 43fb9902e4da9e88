-- ===== src/Envelope/Body/Signed.antt =====
-- `sign` and `authenticate` of crates/leelo-envelope/src/lib.rs.
use leelo.Base.{
  ℕ, ◌-◌, ◌^◌, ◌≤◌, ◌<◌, ◌≡◌, refl, sym, ◌∙◌, ap, subst, Bool, true, not, List, [], ◌∷◌, codes,
  ◌++◌, append-nil, length, length-append, Option, none, some, ok, ◌>>=◌, guard, >>=-eq-ok,
  ok_injective, arith, bytes_eq, bytes_eq_refl, bytes_eq→eq, ltb, le→ltb_false,
}
use leelo.Envelope.Cbor.{Cbor, IsCbor}
use leelo.Envelope.Types.{
  EnvelopeBody, AuthenticatedEnvelope, too_large, invalid_signature, non_canonical, max_envelope,
}
use leelo.Envelope.Read.{fixed_bytes}
use leelo.Envelope.Node.RoundTrip.{arr_law, fixed_bytes_law}
use leelo.Envelope.Descriptor.{context_hash}
use leelo.Envelope.Descriptor.Canonical.{guard-true}
use leelo.Envelope.Body.{
  put_envelope, get_envelope, body_bytes, read_body, sign_input, or_invalid_signature, sign,
  authenticate,
}
use leelo.Envelope.Body.Canonical.{
  IsTypedBody, read_body_iff, read_body-body_bytes, body_bytes-small, body_bytes-context,
}

-- A signature is 64 bytes, and verifies under the key that goes with its signer.
abbrev pub Verifies :
    (List ℕ → Option (List ℕ)) → (List ℕ → List ℕ → List ℕ → Bool) → List ℕ → Type 0
Verifies signer verify key =
    (message signature : List ℕ)
    → signer message ≡ some signature
    → (length signature ≡ 64) × (verify key message signature ≡ true)

or_invalid_signature-some :
    (o : Option (List ℕ)) (s : List ℕ) → or_invalid_signature o ≡ ok s → o ≡ some s
or_invalid_signature-some none s h = cc
or_invalid_signature-some (some t) s h = ap some (ok_injective h)

le_of_not-ltb : (a b : ℕ) → not (ltb a b) ≡ true → b ≤ a
le_of_not-ltb a b h = ground arith

module _ (c : Cbor) (laws : IsCbor c) where
  get_envelope-put_envelope :
      (body signature : List ℕ)
      → length body < 2 ^ 64
      → length signature ≡ 64
      → get_envelope c (put_envelope c body signature) ≡ ok (body, signature)
  unfolding get_envelope put_envelope
  get_envelope-put_envelope body signature short e = rw (arr_law c laws 2 (omega arith) _) (
      rw (laws.bytes_law body short _) (
        rw
          (ap (λ xs. fixed_bytes c 64 xs) (sym (append-nil (c.put_bytes signature)))
            ∙ fixed_bytes_law c laws signature 64 e (omega arith) [])
          refl))

  put_envelope-size :
      (body signature : List ℕ)
      → length body ≤ max_envelope - 128
      → length signature ≡ 64
      → length (put_envelope c body signature) ≤ max_envelope
  unfolding put_envelope
  put_envelope-size body signature small e = omega (
    arith,
    small,
    e,
    length-append (c.put_array 2) (c.put_bytes body ++ c.put_bytes signature),
    length-append (c.put_bytes body) (c.put_bytes signature),
    laws.array_size 2,
    laws.bytes_size body,
    laws.bytes_size signature,
  )

module _ (c : Cbor) (hash : List ℕ → List ℕ) (valid_key : List ℕ → Bool) where
  authenticate-passes :
      (verify : List ℕ → List ℕ → List ℕ → Bool) (raw key raw_body signature context : List ℕ)
      (body : EnvelopeBody)
      → length raw ≤ max_envelope
      → get_envelope c raw ≡ ok (raw_body, signature)
      → verify key (sign_input raw_body) signature ≡ true
      → put_envelope c raw_body signature ≡ raw
      → read_body c hash valid_key raw_body ≡ ok body
      → context_hash c hash valid_key body.descriptor ≡ ok context
      → authenticate c hash valid_key verify raw key
        ≡ ok (record { body = body; context = context })
  unfolding authenticate
  authenticate-passes verify raw key raw_body signature context body small got good same read con =
      rw (le→ltb_false max_envelope (length raw) small) (
        rw got (
          rw good
            (rw (ap (λ xs. bytes_eq xs raw) same ∙ bytes_eq_refl raw) (rw read (rw con refl)))))

  -- What the success of `authenticate` shows of the raw bytes.
  pub record IsAuthentic (verify : List ℕ → List ℕ → List ℕ → Bool) (raw key : List ℕ)
      (a : AuthenticatedEnvelope) : Type 0 where
    pub raw_body : List ℕ
    pub signature : List ℕ
    pub bounded : length raw ≤ max_envelope
    pub verified : verify key (sign_input raw_body) signature ≡ true
    pub canonical : raw ≡ put_envelope c raw_body signature
    pub encoded : body_bytes c hash valid_key a.body ≡ ok raw_body
    pub bound : context_hash c hash valid_key a.body.descriptor ≡ ok a.context

  -- When `authenticate` returns an envelope, the raw bytes are within the limit and are the canonical
  -- frame of the canonical encoding of the body and a signature that verifies on it under the trusted
  -- key, and the context is the hash of the body's descriptor.
  pub authenticate-IsAuthentic :
      (verify : List ℕ → List ℕ → List ℕ → Bool) (raw key : List ℕ) (a : AuthenticatedEnvelope)
      → authenticate c hash valid_key verify raw key ≡ ok a
      → IsAuthentic verify raw key a
  unfolding authenticate
  authenticate-IsAuthentic verify raw key a h =
      let (u, e₁, f₁) = >>=-eq-ok (guard (not (ltb max_envelope (length raw))) too_large) _ h in
      let ((raw_body, signature), e₂, f₂) = >>=-eq-ok (get_envelope c raw) _ f₁ in
      let (v, e₃, f₃) =
        >>=-eq-ok (guard (verify key (sign_input raw_body) signature) invalid_signature) _ f₂ in
      let (w, e₄, f₄) =
        >>=-eq-ok (guard (bytes_eq (put_envelope c raw_body signature) raw) non_canonical) _ f₃ in
      let (body, e₅, f₅) = >>=-eq-ok (read_body c hash valid_key raw_body) _ f₄ in
      let (context, e₆, f₆) = >>=-eq-ok (context_hash c hash valid_key body.descriptor) _ f₅ in
      subst (IsAuthentic verify raw key) (ok_injective f₆) (record {
        raw_body = raw_body;
        signature = signature;
        bounded = le_of_not-ltb max_envelope (length raw) (guard-true _ _ u e₁);
        verified = guard-true _ _ v e₃;
        canonical = sym (bytes_eq→eq _ raw (guard-true _ _ w e₄));
        encoded = read_body-body_bytes c hash valid_key raw_body body e₅;
        bound = e₆;
      })

  module _ (laws : IsCbor c) where
    -- What `sign` writes for a body of the Rust type, `authenticate` accepts under the signer's key,
    -- and returns that body with the hash of its descriptor: the limit on signed envelopes leaves
    -- room for the frame and the signature.
    pub authenticate-sign :
        (signer : List ℕ → Option (List ℕ)) (verify : List ℕ → List ℕ → List ℕ → Bool)
        (key raw : List ℕ) (body : EnvelopeBody)
        → Verifies signer verify key
        → IsTypedBody body
        → sign c hash valid_key signer body ≡ ok raw
        → (context : List ℕ) × (context_hash c hash valid_key body.descriptor ≡ ok context)
          × (authenticate c hash valid_key verify raw key
              ≡ ok (record { body = body; context = context }))
    unfolding sign context_hash
    authenticate-sign signer verify key raw body good typed h =
        let (bytes, e₁, f₁) = >>=-eq-ok (body_bytes c hash valid_key body) _ h in
        let (sig, e₂, f₂) = >>=-eq-ok (or_invalid_signature (signer (sign_input bytes))) _ f₁ in
        let (size, verified) = good (sign_input bytes) sig (or_invalid_signature-some _ sig e₂) in
        let small = body_bytes-small c laws hash valid_key body bytes e₁ in
        let (desc, described) = body_bytes-context c laws hash valid_key body bytes e₁ in
        let same = ok_injective f₂ in
        let hashed =
          ap (λ r. r >>= λ encoded. ok (hash (codes "leelo/v1/context" ++ (0 ∷ encoded))))
            described in
        (
          hash (codes "leelo/v1/context" ++ (0 ∷ desc)),
          hashed,
          authenticate-passes verify raw key bytes sig
              (hash (codes "leelo/v1/context" ++ (0 ∷ desc))) body
              (subst (λ xs. length xs ≤ max_envelope) same
                (put_envelope-size c laws bytes sig small size))
              (ap (get_envelope c) (sym same)
                ∙ get_envelope-put_envelope c laws bytes sig (omega (arith, small)) size)
              verified same ((read_body_iff c laws hash valid_key bytes body typed).1 e₁) hashed,
        )
