-- ===== src/Envelope/Descriptor.antt =====
-- Descriptors of crates/leelo-envelope/src/lib.rs: validation, encoding, reading, and the contexts
-- that are derived from them. Parameters: the hash (SHA-384, `hash_context` of crates/leelo-crypto)
-- and `valid_key`, whether `ServerPublicKey::from_bytes` accepts a point.
pub mod Fields
pub mod Canonical
pub mod Valid
use leelo.Base.{
  ℕ, zero, suc, ◌+◌, Bool, true, false, not, ◌&&◌, ◌||◌, leb, ltb, ◌==◌, if◌then◌else◌, bit_and,
  List, [], ◌∷◌, ◌++◌, length, replicate, bytes_eq, codes, Result, ok, err, ◌>>=◌, ◌>>◌, guard,
}
use leelo.Protocol.Wire
use leelo.Policy.Compile.{Mode, network_bound, attested, ProductionPolicy, PolicyError, new}
use leelo.Policy.Check.{Leaf}
use leelo.Envelope.Cbor.{Cbor}
use leelo.Envelope.Types.{
  Error, malformed, too_large, non_canonical, unsupported, invalid_policy, invalid_provider,
  NetworkBinding, Descriptor,
}
use leelo.Envelope.Read.{or_malformed, read_u8, arr, fixed_bytes, bounded_array}
use leelo.Envelope.Node.{put_node, get_node}

abbrev pub zeros : ℕ → List ℕ
zeros n = replicate n 0

module _ (hash : List ℕ → List ℕ) (valid_key : List ℕ → Bool) where
  -- The loop over the policy's leaves and the bindings, as far as both go.
  unfoldable pub check_bindings : List Leaf → List NetworkBinding → Result Error (Unit {0})
  unfolding Wire.key_id bytes_eq
  check_bindings [] bindings = ok tt
  check_bindings (leaf ∷ leaves) [] = ok tt
  check_bindings ((id, provider_id) ∷ leaves) (b ∷ bindings) =
      if not (id == b.node_id)
        || not (bytes_eq provider_id b.provider_id)
        || not (bytes_eq b.key_id (Wire.key_id hash b.public_key))
      then err invalid_provider
      else if not (valid_key b.public_key)
      then err invalid_provider
      else check_bindings leaves bindings

  unfoldable pub shares_key : NetworkBinding → List NetworkBinding → Bool
  unfolding bytes_eq
  shares_key b [] = false
  shares_key b (other ∷ others) =
      bytes_eq other.key_id b.key_id
      || bytes_eq other.public_key b.public_key
      || shares_key b others

  -- No key twice; `before` holds the bindings so far, the last first.
  unfoldable pub check_keys : List NetworkBinding → List NetworkBinding → Result Error (Unit {0})
  unfolding shares_key
  check_keys before [] = ok tt
  check_keys before (b ∷ bindings) =
      if shares_key b before then err invalid_provider else check_keys (b ∷ before) bindings

  abbrev pub is_invalid : Descriptor → Bool
  is_invalid d =
      leb 32 d.slot
      || d.generation == 0
      || bytes_eq d.binding_id (zeros 32)
      || bytes_eq d.volume_uuid (zeros 16)
      || d.tpm_pcr_mask == 0
      || not (bit_and d.tpm_pcr_mask 0xff000000 == 0)

  unfoldable pub validate_descriptor : Descriptor → Result Error (Unit {0})
  unfolding check_bindings check_keys
  validate_descriptor d = do
    guard (not (is_invalid d)) invalid_policy
    guard (length d.policy.plan.leaves == length d.networks) invalid_provider
    check_bindings d.policy.plan.leaves d.networks
    check_keys [] d.networks

abbrev pub mode_code : Mode → ℕ
mode_code network_bound = 0
mode_code attested = 1

abbrev pub read_mode : ℕ → Result Error Mode
read_mode zero = ok network_bound
read_mode (suc zero) = ok attested
read_mode (suc (suc n)) = err unsupported

-- `.map_err(|_| Error::InvalidPolicy)?`
abbrev pub or_invalid_policy : Result PolicyError ProductionPolicy → Result Error ProductionPolicy
or_invalid_policy (ok p) = ok p
or_invalid_policy (err e) = err invalid_policy

module _ (c : Cbor) where
  unfoldable pub put_networks : List NetworkBinding → List ℕ
  put_networks [] = []
  put_networks (n ∷ ns) =
      c.put_array 5
      ++ (c.put_u8 n.node_id
          ++ (c.put_bytes n.provider_id
              ++ (c.put_bytes n.key_id
                  ++ (c.put_bytes n.public_key ++ (c.put_bytes n.input_seed ++ put_networks ns)))))

  -- What `descriptor_bytes` writes once the descriptor is valid, before and after the policy's tree.
  unfoldable pub put_descriptor : Descriptor → List ℕ
  unfolding put_networks put_node
  put_descriptor d =
      c.put_array 13
      ++ (c.put_u8 1
          ++ (c.put_u8 1
              ++ (c.put_bytes d.binding_id
                  ++ (c.put_bytes d.volume_uuid
                      ++ (c.put_u8 d.slot
                          ++ (c.put_u64 d.generation
                              ++ (c.put_u8 (mode_code d.policy.mode)
                                  ++ (c.put_u8 d.policy.tpm_node_id
                                      ++ (put_node c d.policy.network
                                          ++ (c.put_array (length d.networks)
                                              ++ (put_networks d.networks
                                                  ++ (c.put_u32 d.tpm_pcr_mask
                                                      ++ (c.put_bytes d.tpm_pcr_digest
                                                          ++ c.put_str
                                                            (codes "luks2-slot"))))))))))))))

  unfoldable pub get_network : List ℕ → Result Error (NetworkBinding × List ℕ)
  unfolding arr fixed_bytes
  get_network input = do
    r₁ ← arr c 5 input
    (node_id, r₂) ← read_u8 c r₁
    (provider_id, r₃) ← fixed_bytes c 32 r₂
    (key_id, r₄) ← fixed_bytes c 32 r₃
    (public_key, r₅) ← fixed_bytes c 49 r₄
    (input_seed, r₆) ← fixed_bytes c 32 r₅
    ok (
      record {
        node_id = node_id;
        provider_id = provider_id;
        key_id = key_id;
        public_key = public_key;
        input_seed = input_seed;
      },
      r₆,
    )

  unfoldable pub get_networks : ℕ → List ℕ → Result Error (List NetworkBinding × List ℕ)
  unfolding get_network
  get_networks zero input = ok ([], input)
  get_networks (suc count) input = do
    (n, rest) ← get_network input
    (ns, rest') ← get_networks count rest
    ok (n ∷ ns, rest')

  -- The policy: its mode, the TPM's node and the tree, from the depth 1 on.
  unfoldable pub get_policy : List ℕ → Result Error (ProductionPolicy × List ℕ)
  unfolding get_node new
  get_policy input = do
    (code, r₁) ← read_u8 c input
    mode ← read_mode code
    (tpm_id, r₂) ← read_u8 c r₁
    (network, _, r₃) ← get_node c 4 0 r₂
    policy ← or_invalid_policy (new mode tpm_id network)
    ok (policy, r₃)

  -- What follows the policy, to the end of the input.
  unfoldable pub get_rest :
      List ℕ → List ℕ → ℕ → ℕ → ProductionPolicy → List ℕ → Result Error Descriptor
  unfolding bounded_array get_networks fixed_bytes
  get_rest binding_id volume_uuid slot generation policy input = do
    (count, r₁) ← bounded_array c 30 input
    (networks, r₂) ← get_networks count r₁
    (mask, r₃) ← or_malformed (c.get_u32 r₂)
    (digest, r₄) ← fixed_bytes c 32 r₃
    (text, r₅) ← or_malformed (c.get_str r₄)
    guard (bytes_eq text (codes "luks2-slot") && length r₅ == 0) malformed
    ok (record {
      binding_id = binding_id;
      volume_uuid = volume_uuid;
      slot = slot;
      generation = generation;
      policy = policy;
      networks = networks;
      tpm_pcr_mask = mask;
      tpm_pcr_digest = digest;
    })

  -- `read_descriptor` up to the descriptor itself. The second of the two numbers is not read where
  -- the first is not the version.
  unfoldable pub parse_descriptor : List ℕ → Result Error Descriptor
  unfolding arr fixed_bytes get_policy get_rest
  parse_descriptor raw = do
    r₁ ← arr c 13 raw
    (version, r₂) ← read_u8 c r₁
    guard (version == 1) unsupported
    (suite, r₃) ← read_u8 c r₂
    guard (suite == 1) unsupported
    (binding_id, r₄) ← fixed_bytes c 32 r₃
    (volume_uuid, r₅) ← fixed_bytes c 16 r₄
    (slot, r₆) ← read_u8 c r₅
    (generation, r₇) ← or_malformed (c.get_u64 r₆)
    (policy, r₈) ← get_policy r₇
    get_rest binding_id volume_uuid slot generation policy r₈

  module _ (hash : List ℕ → List ℕ) (valid_key : List ℕ → Bool) where
    unfoldable pub descriptor_bytes : Descriptor → Result Error (List ℕ)
    unfolding validate_descriptor put_descriptor
    descriptor_bytes d = do validate_descriptor hash valid_key d; ok (put_descriptor d)

    unfoldable pub read_descriptor : List ℕ → Result Error Descriptor
    unfolding parse_descriptor descriptor_bytes
    read_descriptor raw = do
      desc ← parse_descriptor raw
      encoded ← descriptor_bytes desc
      guard (bytes_eq encoded raw) non_canonical
      ok desc

    unfoldable pub context_hash : Descriptor → Result Error (List ℕ)
    unfolding descriptor_bytes
    context_hash d = do
      encoded ← descriptor_bytes d
      ok (hash (codes "leelo/v1/context" ++ (0 ∷ encoded)))

unfoldable pub leaf_context : List ℕ → ℕ → List ℕ
leaf_context context node_id = codes "leelo/v1/leaf" ++ (0 ∷ (context ++ node_id ∷ []))

unfoldable pub network_input : Descriptor → NetworkBinding → List ℕ
network_input d n =
    codes "leelo/v1/network-input" ++ (0 ∷ (d.binding_id ++ (n.node_id ∷ n.input_seed)))
