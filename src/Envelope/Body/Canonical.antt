-- ===== src/Envelope/Body/Canonical.antt =====
-- `read_body` and `body_bytes` of crates/leelo-envelope/src/lib.rs.
use leelo.Base.{
  ℕ, suc, ◌-◌, ◌^◌, ◌≤◌, ◌<◌, ◌≡◌, ◌↔◌, refl, sym, ◌∙◌, ap, subst, Bool, false, not, ◌||◌, List, [],
  ◌∷◌, ◌++◌, append_assoc, append-nil, length, length-append, length-map, All, ok, guard, >>=-eq-ok,
  ok_injective, arith, bytes_eq, bytes_eq_refl, bytes_eq→eq, ltb,
}
use leelo.Envelope.Cbor.{Cbor, IsCbor}
use leelo.Envelope.Types.{
  NetworkBinding, TpmBlob, WrappedKey, WrappedLeaf, EnvelopeBody, too_large, malformed,
  non_canonical, max_envelope, max_tpm_blob,
}
use leelo.Envelope.Node.RoundTrip.{arr_law, fixed_bytes_law, bounded_array_law, bounded_bytes_law}
use leelo.Envelope.Descriptor.{descriptor_bytes, read_descriptor}
use leelo.Envelope.Descriptor.Canonical.{
  IsTyped, guard-true, read_descriptor_iff, descriptor_bytes-few,
}
use leelo.Envelope.Body.{
  is_outside, expected_ids, leaf_node_ids, put_wrapped, get_wrapped, put_leaves, get_leaves,
  put_body, get_tpm, body_bytes, parse_body, read_body,
}

pub record IsTypedKey (w : WrappedKey) : Type 0 where
  pub nonce_size : length w.nonce ≡ 12
  pub ciphertext_size : length w.ciphertext ≡ 48

abbrev pub IsTypedLeaf : WrappedLeaf → Type 0
IsTypedLeaf l = (l.node_id < 256) × IsTypedKey l.value

-- A value of the Rust type.
pub record IsTypedBody (b : EnvelopeBody) : Type 0 where
  pub descriptor : IsTyped b.descriptor
  pub leaves : All IsTypedLeaf b.leaves
  pub payload : IsTypedKey b.payload

abbrev FitsBlob : ℕ → List ℕ → Type 0
FitsBlob max b = (0 < length b) × (length b ≤ max)

record FitsTpm (t : TpmBlob) : Type 0 where
  public : FitsBlob max_tpm_blob t.public
  private : FitsBlob max_tpm_blob t.private
  name : FitsBlob 68 t.name
  parent_name : FitsBlob 68 t.parent_name

is_outside-false : (max : ℕ) (b : List ℕ) → is_outside max b ≡ false → FitsBlob max b
is_outside-false max b h = ground arith

module _ (c : Cbor) (hash : List ℕ → List ℕ) (valid_key : List ℕ → Bool) where
  -- What is read is canonical.
  pub read_body-body_bytes :
      (raw : List ℕ) (b : EnvelopeBody)
      → read_body c hash valid_key raw ≡ ok b
      → body_bytes c hash valid_key b ≡ ok raw
  unfolding read_body
  read_body-body_bytes raw b h =
      let (body, e₁, f₁) = >>=-eq-ok (parse_body c hash valid_key raw) _ h in
      let (encoded, e₂, f₂) = >>=-eq-ok (body_bytes c hash valid_key body) _ f₁ in
      let (u, e₃, f₃) = >>=-eq-ok (guard (bytes_eq encoded raw) non_canonical) _ f₂ in
      subst (λ x. body_bytes c hash valid_key x ≡ ok raw) (ok_injective f₃)
        (e₂ ∙ ap ok (bytes_eq→eq encoded raw (guard-true _ _ u e₃)))

module _ (c : Cbor) (laws : IsCbor c) where
  get_wrapped_law :
      (w : WrappedKey) (rest : List ℕ)
      → IsTypedKey w
      → get_wrapped c (c.put_array 2 ++ (c.put_bytes w.nonce ++ (c.put_bytes w.ciphertext ++ rest)))
        ≡ ok (w, rest)
  unfolding get_wrapped
  get_wrapped_law w rest t = rw (arr_law c laws 2 (omega arith) _) (
      rw (fixed_bytes_law c laws w.nonce 12 t.nonce_size (omega arith) _)
        (rw (fixed_bytes_law c laws w.ciphertext 48 t.ciphertext_size (omega arith) rest) refl))

  put_wrapped-append :
      (w : WrappedKey) (rest : List ℕ)
      → put_wrapped c w ++ rest
        ≡ c.put_array 2 ++ (c.put_bytes w.nonce ++ (c.put_bytes w.ciphertext ++ rest))
  unfolding put_wrapped
  put_wrapped-append w rest = simp append_assoc

  get_wrapped-put_wrapped :
      (w : WrappedKey) (rest : List ℕ)
      → IsTypedKey w
      → get_wrapped c (put_wrapped c w ++ rest) ≡ ok (w, rest)
  get_wrapped-put_wrapped w rest t =
      ap (get_wrapped c) (put_wrapped-append w rest) ∙ get_wrapped_law w rest t

  put_leaves-append :
      (l : WrappedLeaf) (ls : List WrappedLeaf) (rest : List ℕ)
      → put_leaves c (l ∷ ls) ++ rest
        ≡ c.put_array 2
          ++ (c.put_u8 l.node_id ++ (put_wrapped c l.value ++ (put_leaves c ls ++ rest)))
  unfolding put_leaves
  put_leaves-append l ls rest = simp append_assoc

  get_leaves_step :
      (l : WrappedLeaf) (ls : List WrappedLeaf) (input rest : List ℕ)
      → IsTypedLeaf l
      → get_leaves c (length ls) input ≡ ok (ls, rest)
      → get_leaves c
          (suc (length ls))
          (c.put_array 2 ++ (c.put_u8 l.node_id ++ (put_wrapped c l.value ++ input)))
        ≡ ok (l ∷ ls, rest)
  unfolding get_leaves
  get_leaves_step l ls input rest t e = rw (arr_law c laws 2 (omega arith) _) (
      rw (laws.u8_law l.node_id t.0 _) (rw (get_wrapped-put_wrapped l.value input t.1) (rw e refl)))

  get_leaves-put_leaves :
      (ls : List WrappedLeaf) (rest : List ℕ)
      → All IsTypedLeaf ls
      → get_leaves c (length ls) (put_leaves c ls ++ rest) ≡ ok (ls, rest)
  unfolding get_leaves put_leaves
  get_leaves-put_leaves [] rest t = refl
  get_leaves-put_leaves (l ∷ ls) rest t =
      ap (get_leaves c (suc (length ls))) (put_leaves-append l ls rest)
      ∙ get_leaves_step l ls (put_leaves c ls ++ rest) rest t.0 (get_leaves-put_leaves ls rest t.1)

  get_tpm_law :
      (t : TpmBlob) (rest : List ℕ)
      → FitsTpm t
      → get_tpm c (
          c.put_array 4
          ++ (c.put_bytes t.public
              ++ (c.put_bytes t.private
                  ++ (c.put_bytes t.name ++ (c.put_bytes t.parent_name ++ rest)))))
        ≡ ok (t, rest)
  unfolding get_tpm
  get_tpm_law t rest f = rw (arr_law c laws 4 (omega arith) _) (
      rw (bounded_bytes_law c laws t.public max_tpm_blob f.public.0 f.public.1 (omega arith) _) (
        rw (bounded_bytes_law c laws t.private max_tpm_blob f.private.0 f.private.1 (omega arith) _)
          (rw (bounded_bytes_law c laws t.name 68 f.name.0 f.name.1 (omega arith) _) (
            rw
              (bounded_bytes_law c laws t.parent_name 68 f.parent_name.0 f.parent_name.1
                (omega arith) rest)
              refl))))

  length-put_body : (desc : List ℕ) (b : EnvelopeBody) → length desc ≤ length (put_body c desc b)
  unfolding put_body
  length-put_body desc b =
      let tail =
        c.put_array 4
        ++ (c.put_bytes b.tpm.public
            ++ (c.put_bytes b.tpm.private
                ++ (c.put_bytes b.tpm.name
                    ++ (c.put_bytes b.tpm.parent_name
                        ++ (c.put_array (length b.leaves)
                            ++ (put_leaves c b.leaves ++ put_wrapped c b.payload)))))) in
      omega (
        arith,
        length-append (c.put_array 4) (c.put_bytes desc ++ tail),
        length-append (c.put_bytes desc) tail,
        laws.bytes_least desc,
      )

  module _ (hash : List ℕ → List ℕ) (valid_key : List ℕ → Bool) where
    -- What the success of `body_bytes` shows.
    record Written (b : EnvelopeBody) (raw : List ℕ) : Type 0 where
      desc : List ℕ
      described : descriptor_bytes c hash valid_key b.descriptor ≡ ok desc
      fits : FitsTpm b.tpm
      ids : leaf_node_ids b.leaves ≡ expected_ids b.descriptor
      small : length (put_body c desc b) ≤ max_envelope - 128
      same : put_body c desc b ≡ raw

    tpm_fits :
        (t : TpmBlob)
        → (is_outside max_tpm_blob t.public
            || is_outside max_tpm_blob t.private
            || is_outside 68 t.name
            || is_outside 68 t.parent_name)
          ≡ false
        → FitsTpm t
    tpm_fits t h = ground arith

    body_bytes-Written :
        (b : EnvelopeBody) (raw : List ℕ) → body_bytes c hash valid_key b ≡ ok raw → Written b raw
    unfolding body_bytes
    body_bytes-Written b raw h =
        let (desc, e₁, f₁) = >>=-eq-ok (descriptor_bytes c hash valid_key b.descriptor) _ h in
        let (u, e₂, f₂) =
          >>=-eq-ok
            (guard
              (not (
                is_outside max_tpm_blob b.tpm.public
                || is_outside max_tpm_blob b.tpm.private
                || is_outside 68 b.tpm.name
                || is_outside 68 b.tpm.parent_name))
              too_large)
            _ f₁ in
        let (v, e₃, f₃) =
          >>=-eq-ok
            (guard (bytes_eq (leaf_node_ids b.leaves) (expected_ids b.descriptor)) malformed) _
            f₂ in
        let (w, e₄, f₄) =
          >>=-eq-ok (guard (not (ltb (max_envelope - 128) (length (put_body c desc b)))) too_large)
            _ f₃ in
        record {
          desc = desc;
          described = e₁;
          fits = tpm_fits b.tpm (ground (arith, guard-true _ _ u e₂));
          ids = bytes_eq→eq _ _ (guard-true _ _ v e₃);
          small = ground (arith, guard-true _ _ w e₄);
          same = ok_injective f₄;
        }

    parse_body-put_body :
        (b : EnvelopeBody) (desc : List ℕ)
        → IsTypedBody b
        → FitsTpm b.tpm
        → length b.leaves ≤ 31
        → length desc < 2 ^ 64
        → read_descriptor c hash valid_key desc ≡ ok b.descriptor
        → parse_body c hash valid_key (put_body c desc b) ≡ ok b
    unfolding parse_body put_body
    parse_body-put_body b desc t f few short e = rw (arr_law c laws 4 (omega arith) _) (
        rw (laws.bytes_law desc short _) (
          rw e (
            rw (get_tpm_law b.tpm _ f) (
              rw (bounded_array_law c laws (length b.leaves) 31 few (omega arith) _) (
                rw (get_leaves-put_leaves b.leaves _ t.leaves) (
                  rw
                    (ap (get_wrapped c) (sym (append-nil (put_wrapped c b.payload)))
                      ∙ get_wrapped-put_wrapped b.payload [] t.payload)
                    refl))))))

    -- On a value of the Rust type, `read_body` gives the body from exactly the bytes that
    -- `body_bytes` writes for it.
    pub read_body_iff :
        (raw : List ℕ) (b : EnvelopeBody)
        → IsTypedBody b
        → (read_body c hash valid_key raw ≡ ok b) ↔ (body_bytes c hash valid_key b ≡ ok raw)
    unfolding read_body
    read_body_iff raw b t = (forward, backward)
      where
        forward : read_body c hash valid_key raw ≡ ok b → body_bytes c hash valid_key b ≡ ok raw
        forward = read_body-body_bytes c hash valid_key raw b

        backward : body_bytes c hash valid_key b ≡ ok raw → read_body c hash valid_key raw ≡ ok b
        backward h =
            let w = body_bytes-Written b raw h in
            let few : length b.leaves ≤ 31 = omega (
              arith,
              ap length w.ids,
              length-map (λ (l : WrappedLeaf). l.node_id) b.leaves,
              length-map (λ (n : NetworkBinding). n.node_id) b.descriptor.networks,
              descriptor_bytes-few c laws hash valid_key b.descriptor w.desc t.descriptor
                  w.described,
            ) in
            let parsed =
              ap (parse_body c hash valid_key) (sym w.same)
              ∙ parse_body-put_body b w.desc t w.fits few
                  (omega (arith, length-put_body w.desc b, w.small))
                  ((read_descriptor_iff c laws hash valid_key w.desc b.descriptor t.descriptor).1
                    w.described) in
            rw parsed (rw h (rw (bytes_eq_refl raw) refl))

    pub body_bytes-small :
        (b : EnvelopeBody) (raw : List ℕ)
        → body_bytes c hash valid_key b ≡ ok raw
        → length raw ≤ max_envelope - 128
    body_bytes-small b raw h =
        let w = body_bytes-Written b raw h in
        subst (λ xs. length xs ≤ max_envelope - 128) w.same w.small

    pub body_bytes-context :
        (b : EnvelopeBody) (raw : List ℕ)
        → body_bytes c hash valid_key b ≡ ok raw
        → (desc : List ℕ) × (descriptor_bytes c hash valid_key b.descriptor ≡ ok desc)
    body_bytes-context b raw h = let w = body_bytes-Written b raw h in (w.desc, w.described)
