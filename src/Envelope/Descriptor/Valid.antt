-- ===== src/Envelope/Descriptor/Valid.antt =====
-- Which descriptors `validate_descriptor` of crates/leelo-envelope/src/lib.rs accepts.
use leelo.Base.{
  ℕ, suc, ◌<◌, ◌≡◌, ◌↔◌, refl, ap, Bool, true, false, not, List, [], ◌∷◌, length, All, ok, guard,
  >>=-eq-ok, arith, bytes_eq, bytes_eq→eq, eq→bytes_eq, ◌==◌, ==_iff, ==_refl, bit_and, Bool-cases,
  inl, inr,
}
use leelo.Protocol.Wire
use leelo.Policy.Check.{Leaf}
use leelo.Envelope.Types.{Descriptor, NetworkBinding, invalid_policy, invalid_provider}
use leelo.Envelope.Descriptor.{
  zeros, is_invalid, validate_descriptor, check_bindings, shares_key, check_keys,
}
use leelo.Envelope.Descriptor.Canonical.{guard-true}

-- Two bindings with different key identifiers and different public keys.
abbrev pub HaveOtherKeys : NetworkBinding → NetworkBinding → Type 0
HaveOtherKeys a b = (¬ (a.key_id ≡ b.key_id)) × (¬ (a.public_key ≡ b.public_key))

abbrev pub DistinctKeys : List NetworkBinding → Type 0
DistinctKeys [] = Unit
DistinctKeys (b ∷ bs) = All (λ o. HaveOtherKeys b o) bs × DistinctKeys bs

-- Each of `bs` has other keys than all of `before`.
abbrev AllOther : List NetworkBinding → List NetworkBinding → Type 0
AllOther before bs = All (λ b. All (λ o. HaveOtherKeys o b) before) bs

AllOther-cons :
    (b : NetworkBinding) (before bs : List NetworkBinding)
    → All (λ o. HaveOtherKeys b o) bs
    → AllOther before bs
    → AllOther (b ∷ before) bs
AllOther-cons b before [] h a = tt
AllOther-cons b before (o ∷ os) h a = ((h.0, a.0), AllOther-cons b before os h.1 a.1)

AllOther-split :
    (b : NetworkBinding) (before bs : List NetworkBinding)
    → AllOther (b ∷ before) bs
    → All (λ o. HaveOtherKeys b o) bs × AllOther before bs
AllOther-split b before [] a = (tt, tt)
AllOther-split b before (o ∷ os) a =
    let (h, r) = AllOther-split b before os a.1 in ((a.0.0, h), (a.0.1, r))

AllOther-nil : (bs : List NetworkBinding) → AllOther [] bs
AllOther-nil [] = tt
AllOther-nil (b ∷ bs) = (tt, AllOther-nil bs)

bytes_differ : (xs ys : List ℕ) → ¬ (xs ≡ ys) → bytes_eq xs ys ≡ false
bytes_differ xs ys h = elim (Bool-cases (bytes_eq xs ys)) [
  | inl same ↦ absurd (h (bytes_eq→eq xs ys same))
  | inr other ↦ other
]

differ_of_bytes : (xs ys : List ℕ) → bytes_eq xs ys ≡ false → ¬ (xs ≡ ys)
differ_of_bytes xs ys h e = ground (arith, eq→bytes_eq xs ys e)

module _ (hash : List ℕ → List ℕ) (valid_key : List ℕ → Bool) where
  shares_key-false :
      (b : NetworkBinding) (before : List NetworkBinding)
      → (shares_key hash valid_key b before ≡ false) ↔ All (λ o. HaveOtherKeys o b) before
  unfolding shares_key
  shares_key-false b [] = (λ h. tt, λ h. refl)
  shares_key-false b (o ∷ os) =
      let (there, back) = shares_key-false b os in
      (
        λ h. (
          (
            differ_of_bytes o.key_id b.key_id (ground arith),
            differ_of_bytes o.public_key b.public_key (ground arith),
          ),
          there (ground arith),
        ),
        λ h. ground (
          arith,
          bytes_differ o.key_id b.key_id h.0.0,
          bytes_differ o.public_key b.public_key h.0.1,
          back h.1,
        ),
      )

  check_keys_step :
      (before : List NetworkBinding) (b : NetworkBinding) (bs : List NetworkBinding)
      → check_keys hash valid_key before (b ∷ bs) ≡ ok tt
      → (shares_key hash valid_key b before ≡ false)
        × (check_keys hash valid_key (b ∷ before) bs ≡ ok tt)
  unfolding check_keys
  check_keys_step before b bs h = ground arith

  check_keys_more :
      (before : List NetworkBinding) (b : NetworkBinding) (bs : List NetworkBinding)
      → shares_key hash valid_key b before ≡ false
      → check_keys hash valid_key (b ∷ before) bs ≡ ok tt
      → check_keys hash valid_key before (b ∷ bs) ≡ ok tt
  unfolding check_keys
  check_keys_more before b bs h k = rw (h, k) refl

  check_keys-DistinctKeys :
      (before bs : List NetworkBinding)
      → check_keys hash valid_key before bs ≡ ok tt
      → AllOther before bs × DistinctKeys bs
  check_keys-DistinctKeys before [] h = (tt, tt)
  check_keys-DistinctKeys before (b ∷ bs) h =
      let (new, rest) = check_keys_step before b bs h in
      let (other, distinct) = check_keys-DistinctKeys (b ∷ before) bs rest in
      let (here, there) = AllOther-split b before bs other in
      (((shares_key-false b before).0 new, there), (here, distinct))

  DistinctKeys-check_keys :
      (before bs : List NetworkBinding)
      → AllOther before bs
      → DistinctKeys bs
      → check_keys hash valid_key before bs ≡ ok tt
  unfolding check_keys
  DistinctKeys-check_keys before [] a d = refl
  DistinctKeys-check_keys before (b ∷ bs) a d =
      check_keys_more before b bs ((shares_key-false b before).1 a.0)
        (DistinctKeys-check_keys (b ∷ before) bs (AllOther-cons b before bs d.0 a.1) d.1)

  -- A binding is of its leaf's node and provider, and has the identifier of its own valid key.
  abbrev pub IsBindingOf : Leaf → NetworkBinding → Type 0
  IsBindingOf l b =
      (l.0 ≡ b.node_id)
      × (l.1 ≡ b.provider_id)
      × (b.key_id ≡ Wire.key_id hash b.public_key)
      × (valid_key b.public_key ≡ true)

  -- One binding for each leaf, in the same order.
  abbrev pub AreBindingsOf : List Leaf → List NetworkBinding → Type 0
  AreBindingsOf [] [] = Unit
  AreBindingsOf [] (b ∷ bs) = ⊥
  AreBindingsOf (l ∷ ls) [] = ⊥
  AreBindingsOf (l ∷ ls) (b ∷ bs) = IsBindingOf l b × AreBindingsOf ls bs

  check_bindings_iff :
      (ls : List Leaf) (bs : List NetworkBinding)
      → ((length ls ≡ length bs) × (check_bindings hash valid_key ls bs ≡ ok tt))
        ↔ AreBindingsOf ls bs
  unfolding check_bindings
  check_bindings_iff [] [] = (λ h. tt, λ h. (refl, refl))
  check_bindings_iff [] (b ∷ bs) = (λ h. absurd (omega (arith, h.0)), λ h. elim h [ ])
  check_bindings_iff (l ∷ ls) [] = (λ h. absurd (omega (arith, h.0)), λ h. elim h [ ])
  check_bindings_iff (l ∷ ls) (b ∷ bs) =
      let (there, back) = check_bindings_iff ls bs in
      (
        λ h. (
          ground (
            arith,
            bytes_eq→eq l.1 b.provider_id,
            bytes_eq→eq b.key_id (Wire.key_id hash b.public_key),
          ),
          there (omega (arith, h.0), ground arith),
        ),
        λ h. (
          ap suc (back h.1).0,
          ground (
            arith,
            eq→bytes_eq l.1 b.provider_id h.0.1,
            eq→bytes_eq b.key_id (Wire.key_id hash b.public_key) h.0.2,
            (back h.1).1,
          ),
        ),
      )

  -- The rules of an enrollment, apart from the shape of its policy.
  pub record IsValid (d : Descriptor) : Type 0 where
    pub slot_in_range : d.slot < 32
    pub generation_positive : 0 < d.generation
    pub has_binding_id : ¬ (d.binding_id ≡ zeros 32)
    pub has_volume : ¬ (d.volume_uuid ≡ zeros 16)
    pub has_mask : 0 < d.tpm_pcr_mask
    pub pcrs_exist : bit_and d.tpm_pcr_mask 0xff000000 ≡ 0
    pub bound : AreBindingsOf d.policy.plan.leaves d.networks
    pub distinct : DistinctKeys d.networks

  valid_fields :
      (d : Descriptor)
      → is_invalid hash valid_key d ≡ false
      → (d.slot < 32)
        × (0 < d.generation)
        × (bytes_eq d.binding_id (zeros 32) ≡ false)
        × (bytes_eq d.volume_uuid (zeros 16) ≡ false)
        × (0 < d.tpm_pcr_mask)
        × (bit_and d.tpm_pcr_mask 0xff000000 ≡ 0)
  valid_fields d h = ground arith

  fields_valid :
      (d : Descriptor)
      → d.slot < 32
      → 0 < d.generation
      → bytes_eq d.binding_id (zeros 32) ≡ false
      → bytes_eq d.volume_uuid (zeros 16) ≡ false
      → 0 < d.tpm_pcr_mask
      → bit_and d.tpm_pcr_mask 0xff000000 ≡ 0
      → is_invalid hash valid_key d ≡ false
  fields_valid d a b e f g h = ground arith

  -- A descriptor is valid exactly when its slot is below 32, its generation, binding identifier,
  -- volume and PCR mask are not zero, the mask names PCRs below 24 only, each leaf of the policy has
  -- a binding in the same order with its node, its provider and the identifier of a valid key, and
  -- no two bindings share a key or its identifier.
  pub validate_descriptor_iff :
      (d : Descriptor) → (validate_descriptor hash valid_key d ≡ ok tt) ↔ IsValid d
  unfolding validate_descriptor
  validate_descriptor_iff d = (forward, backward)
    where
      forward : validate_descriptor hash valid_key d ≡ ok tt → IsValid d
      forward h =
          let (u, e₁, f₁) =
            >>=-eq-ok (guard (not (is_invalid hash valid_key d)) invalid_policy) _ h in
          let (v, e₂, f₂) =
            >>=-eq-ok (guard (length d.policy.plan.leaves == length d.networks) invalid_provider) _
              f₁ in
          let (w, e₃, f₃) =
            >>=-eq-ok (check_bindings hash valid_key d.policy.plan.leaves d.networks) _ f₂ in
          let fields =
            valid_fields d (
              ground (arith, guard-true (not (is_invalid hash valid_key d)) invalid_policy u e₁)) in
          record {
            slot_in_range = fields.0;
            generation_positive = fields.1;
            has_binding_id = differ_of_bytes _ _ fields.2;
            has_volume = differ_of_bytes _ _ fields.3;
            has_mask = fields.4;
            pcrs_exist = fields.5;
            bound =
                (check_bindings_iff d.policy.plan.leaves d.networks).0
                  ((==_iff _ _).0 (guard-true _ _ v e₂), e₃);
            distinct = (check_keys-DistinctKeys [] d.networks f₃).1;
          }

      backward : IsValid d → validate_descriptor hash valid_key d ≡ ok tt
      backward v =
          let (same, bindings) = (check_bindings_iff d.policy.plan.leaves d.networks).1 v.bound in
          let fields =
            fields_valid d v.slot_in_range v.generation_positive (bytes_differ _ _ v.has_binding_id)
              (bytes_differ _ _ v.has_volume) v.has_mask v.pcrs_exist in
          rw fields (
            rw same (
              rw (==_refl (length d.networks)) (
                rw bindings
                  (DistinctKeys-check_keys [] d.networks (AllOther-nil d.networks) v.distinct))))
