-- ===== src/Envelope/Descriptor/Canonical.antt =====
-- `read_descriptor` and `descriptor_bytes` of crates/leelo-envelope/src/lib.rs.
use leelo.Base.{
  ℕ, ◌^◌, ◌≤◌, ◌<◌, ◌≡◌, ◌↔◌, refl, sym, ◌∙◌, ap, subst, Bool, true, List, length, All, ok, guard,
  >>=-eq-ok, ok_injective, arith, bytes_eq, bytes_eq_refl, bytes_eq→eq, ◌==◌, ==_iff, not, false,
}
use leelo.Policy.Compile.{ProductionPolicy, new}
use leelo.Policy.Admission.{new-ok}
use leelo.Envelope.Cbor.{Cbor, IsCbor}
use leelo.Envelope.Types.{Descriptor, invalid_policy, invalid_provider, non_canonical}
use leelo.Envelope.Node.RoundTrip.{IsTypedNode, arr_law, fixed_bytes_law}
use leelo.Envelope.Descriptor.{
  is_invalid, validate_descriptor, put_descriptor, parse_descriptor, descriptor_bytes,
  read_descriptor,
}
use leelo.Envelope.Descriptor.Fields.{IsTypedBinding, get_policy_law, get_rest_law, leaf_count-le}

-- A value of the Rust type: the sizes of its arrays, the widths of its integers, and a policy that
-- `ProductionPolicy::new` built.
pub record IsTyped (d : Descriptor) : Type 0 where
  pub binding_size : length d.binding_id ≡ 32
  pub volume_size : length d.volume_uuid ≡ 16
  pub slot_bound : d.slot < 256
  pub generation_bound : d.generation < 2 ^ 64
  pub tpm_id_bound : d.policy.tpm_node_id < 256
  pub tree : IsTypedNode d.policy.network
  pub built : new d.policy.mode d.policy.tpm_node_id d.policy.network ≡ ok d.policy
  pub bindings : All IsTypedBinding d.networks
  pub mask_bound : d.tpm_pcr_mask < 2 ^ 32
  pub digest_size : length d.tpm_pcr_digest ≡ 32

-- `guard` passes only on `true`.
pub guard-true : {E : Type 0} (b : Bool) (e : E) (u : Unit {0}) → guard b e ≡ ok u → b ≡ true
guard-true true e u h = refl
guard-true false e u h = cc

module _ (c : Cbor) (laws : IsCbor c) where
  networks_few :
      (d : Descriptor)
      → IsTyped d
      → length d.policy.plan.leaves ≡ length d.networks
      → length d.networks ≤ 30
  networks_few d t same =
      let (a, e) =
        (new-ok d.policy.mode d.policy.tpm_node_id d.policy.network d.policy).0 t.built in
      omega (
        arith,
        same,
        a.size,
        ap (λ (p : ProductionPolicy). length p.plan.leaves) e,
        leaf_count-le d.policy.network,
      )

  -- What is written is parsed, when the leaves are as many as the bindings.
  parse_descriptor-put_descriptor :
      (d : Descriptor)
      → IsTyped d
      → length d.policy.plan.leaves ≡ length d.networks
      → parse_descriptor c (put_descriptor c d) ≡ ok d
  unfolding parse_descriptor put_descriptor
  parse_descriptor-put_descriptor d t same =
      let few = networks_few d t same in
      rw (arr_law c laws 13 (omega arith) _) (
        rw (laws.u8_law 1 (omega arith) _) (
          rw (laws.u8_law 1 (omega arith) _) (
            rw (fixed_bytes_law c laws d.binding_id 32 t.binding_size (omega arith) _) (
              rw (fixed_bytes_law c laws d.volume_uuid 16 t.volume_size (omega arith) _) (
                rw (laws.u8_law d.slot t.slot_bound _) (
                  rw (laws.u64_law d.generation t.generation_bound _) (
                    rw
                      (get_policy_law c laws d.policy.mode d.policy.tpm_node_id d.policy.network
                        d.policy _ t.built t.tpm_id_bound t.tree)
                      (get_rest_law c laws d t.bindings few t.mask_bound t.digest_size))))))))

  module _ (hash : List ℕ → List ℕ) (valid_key : List ℕ → Bool) where
    descriptor_bytes-valid :
        (d : Descriptor) (raw : List ℕ)
        → descriptor_bytes c hash valid_key d ≡ ok raw
        → (validate_descriptor hash valid_key d ≡ ok tt) × (put_descriptor c d ≡ raw)
    unfolding descriptor_bytes
    descriptor_bytes-valid d raw h =
        let (u, e, f) = >>=-eq-ok (validate_descriptor hash valid_key d) _ h in (e, ok_injective f)

    pub validate-same_length :
        (d : Descriptor)
        → validate_descriptor hash valid_key d ≡ ok tt
        → length d.policy.plan.leaves ≡ length d.networks
    unfolding validate_descriptor
    validate-same_length d h =
        let (u, e₁, f₁) =
          >>=-eq-ok (guard (not (is_invalid hash valid_key d)) invalid_policy) _ h in
        let (v, e₂, f₂) =
          >>=-eq-ok (guard (length d.policy.plan.leaves == length d.networks) invalid_provider) _
            f₁ in
        (==_iff _ _).0 (guard-true _ _ v e₂)

    pub descriptor_bytes-few :
        (d : Descriptor) (raw : List ℕ)
        → IsTyped d
        → descriptor_bytes c hash valid_key d ≡ ok raw
        → length d.networks ≤ 30
    descriptor_bytes-few d raw t h =
        networks_few d t (validate-same_length d (descriptor_bytes-valid d raw h).0)

    -- On a value of the Rust type, reading gives the descriptor from exactly the bytes that
    -- `descriptor_bytes` writes for it: no other encoding of it is accepted, and its own always is.
    pub read_descriptor_iff :
        (raw : List ℕ) (d : Descriptor)
        → IsTyped d
        → (read_descriptor c hash valid_key raw ≡ ok d)
          ↔ (descriptor_bytes c hash valid_key d ≡ ok raw)
    unfolding read_descriptor
    read_descriptor_iff raw d t = (forward, backward)
      where
        forward :
            read_descriptor c hash valid_key raw ≡ ok d
            → descriptor_bytes c hash valid_key d ≡ ok raw
        forward h =
            let (desc, e₁, f₁) = >>=-eq-ok (parse_descriptor c raw) _ h in
            let (encoded, e₂, f₂) = >>=-eq-ok (descriptor_bytes c hash valid_key desc) _ f₁ in
            let (u, e₃, f₃) = >>=-eq-ok (guard (bytes_eq encoded raw) non_canonical) _ f₂ in
            subst (λ x. descriptor_bytes c hash valid_key x ≡ ok raw) (ok_injective f₃)
              (e₂ ∙ ap ok (bytes_eq→eq encoded raw (guard-true _ _ u e₃)))

        backward :
            descriptor_bytes c hash valid_key d ≡ ok raw
            → read_descriptor c hash valid_key raw ≡ ok d
        backward h =
            let (valid, same) = descriptor_bytes-valid d raw h in
            let parsed =
              ap (parse_descriptor c) (sym same)
              ∙ parse_descriptor-put_descriptor d t (validate-same_length d valid) in
            rw parsed (rw h (rw (bytes_eq_refl raw) refl))
