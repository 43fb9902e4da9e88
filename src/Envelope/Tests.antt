-- ===== src/Envelope/Tests.antt =====
-- One envelope of crates/leelo-envelope, with a coder of one number for each head in place of CBOR,
-- a hash that keeps its input's front, and one fixed signature.
use leelo.Base.{
  ℕ, ◌+◌, ◌<◌, ◌≡◌, ◌↔◌, refl, Bool, true, List, [], ◌∷◌, ◌++◌, length, replicate, take, drop,
  take-append_length, drop-append_length, arith, Option, none, some, some_injective, ok, err,
  bytes_eq, subst, codes, bytes_eq_refl,
}
use leelo.Policy.Tree.{NetworkNode, nil, cons}
use leelo.Policy.Layout.{layout, leaf_list, roots, node_count, IsWithin}
use leelo.Policy.Compile.{attested, ProductionPolicy, new}
use leelo.Policy.Admission.{policy_of}
use leelo.Envelope.Cbor.{Cbor, IsCbor}
use leelo.Envelope.Types.{invalid_provider, NetworkBinding, Descriptor, WrappedKey, EnvelopeBody}
use leelo.Envelope.Node.{put_node, get_node}
use leelo.Envelope.Node.RoundTrip.{IsTypedNode, get_node-put_node}
use leelo.Envelope.Descriptor.{
  validate_descriptor, put_descriptor, descriptor_bytes, read_descriptor, context_hash,
}
use leelo.Envelope.Descriptor.Fields.{IsTypedBinding}
use leelo.Envelope.Descriptor.Canonical.{IsTyped, read_descriptor_iff}
use leelo.Envelope.Descriptor.Valid.{IsValid, validate_descriptor_iff}
use leelo.Envelope.Body.{
  put_body, put_leaves, put_wrapped, put_envelope, body_bytes, read_body, sign, authenticate,
}
use leelo.Envelope.Body.Canonical.{IsTypedKey, IsTypedBody, read_body_iff}
use leelo.Envelope.Body.Signed.{Verifies, IsAuthentic, authenticate-IsAuthentic, authenticate-sign}

abbrev first : List ℕ → Option (ℕ × List ℕ)
first [] = none
first (n ∷ rest) = some (n, rest)

abbrev first_size : List ℕ → Option (Option ℕ × List ℕ)
first_size [] = none
first_size (n ∷ rest) = some (some n, rest)

abbrev framed : List ℕ → List ℕ
framed b = length b ∷ b

abbrev unframed : List ℕ → Option (List ℕ × List ℕ)
unframed [] = none
unframed (n ∷ rest) = some (take n rest, drop n rest)

abbrev coder : Cbor
coder = record {
  put_array = λ n. n ∷ [];
  put_u8 = λ n. n ∷ [];
  put_u32 = λ n. n ∷ [];
  put_u64 = λ n. n ∷ [];
  put_bytes = framed;
  put_str = framed;
  get_array = first_size;
  get_u8 = first;
  get_u32 = first;
  get_u64 = first;
  get_bytes = unframed;
  get_str = unframed;
}

unframed-framed : (b rest : List ℕ) → unframed (framed b ++ rest) ≡ some (b, rest)
unframed-framed b rest = λ i.
    some (take-append_length (length b) b rest refl i, drop-append_length (length b) b rest refl i)

coder-IsCbor : IsCbor coder
coder-IsCbor = record {
  array_law = λ n h rest. refl;
  u8_law = λ n h rest. refl;
  u32_law = λ n h rest. refl;
  u64_law = λ n h rest. refl;
  bytes_law = λ b h rest. unframed-framed b rest;
  str_law = λ b h rest. unframed-framed b rest;
  array_size = λ n. omega arith;
  bytes_size = λ b. omega arith;
  bytes_least = λ b. omega arith;
}

abbrev hash : List ℕ → List ℕ
hash xs = take 48 xs

abbrev valid_key : List ℕ → Bool
valid_key key = true

abbrev tree : NetworkNode
tree =
    NetworkNode.threshold 2 1
      (cons (NetworkNode.leaf 3 (replicate 32 3)) (cons (NetworkNode.leaf 4 (replicate 32 4)) nil))

abbrev binding : ℕ → NetworkBinding
binding i = record {
  node_id = i;
  provider_id = replicate 32 i;
  key_id = replicate 32 i;
  public_key = replicate 49 i;
  input_seed = replicate 32 (i + 10);
}

abbrev policy : ProductionPolicy
policy = policy_of attested 1 tree

abbrev descriptor : Descriptor
descriptor = record {
  binding_id = replicate 32 1;
  volume_uuid = replicate 16 2;
  slot = 1;
  generation = 1;
  policy = policy;
  networks = binding 3 ∷ binding 4 ∷ [];
  tpm_pcr_mask = 128;
  tpm_pcr_digest = replicate 32 0;
}

abbrev wrapped : ℕ → WrappedKey
wrapped i = record { nonce = replicate 12 i; ciphertext = replicate 48 i }

abbrev body : EnvelopeBody
body = record {
  descriptor = descriptor;
  tpm = record { public = 1 ∷ []; private = 2 ∷ []; name = 3 ∷ []; parent_name = 4 ∷ [] };
  leaves =
      record { node_id = 1; value = wrapped 1 }
      ∷ record { node_id = 3; value = wrapped 3 }
      ∷ record { node_id = 4; value = wrapped 4 }
      ∷ [];
  payload = wrapped 9;
}

tree-IsTypedNode : IsTypedNode tree
unfolding IsTypedNode
tree-IsTypedNode = (omega arith, omega arith, ((omega arith, refl), ((omega arith, refl), tt)))

tree-IsWithin : IsWithin tree 4
unfolding IsWithin
tree-IsWithin = (omega arith, (omega arith, (omega arith, tt)))

tree_built : new attested 1 tree ≡ ok policy
unfolding new layout leaf_list roots node_count
tree_built = refl

binding-IsTypedBinding : (i : ℕ) → i < 256 → IsTypedBinding (binding i)
binding-IsTypedBinding i h = record {
  id_bound = h;
  provider_size = refl;
  key_size = refl;
  public_size = refl;
  seed_size = refl;
}

descriptor-IsTyped : IsTyped descriptor
descriptor-IsTyped = record {
  binding_size = refl;
  volume_size = refl;
  slot_bound = omega arith;
  generation_bound = omega arith;
  tpm_id_bound = omega arith;
  tree = tree-IsTypedNode;
  built = tree_built;
  bindings = (binding-IsTypedBinding 3 (omega arith), (binding-IsTypedBinding 4 (omega arith), tt));
  mask_bound = omega arith;
  digest_size = refl;
}

wrapped-IsTypedKey : (i : ℕ) → IsTypedKey (wrapped i)
wrapped-IsTypedKey i = record { nonce_size = refl; ciphertext_size = refl }

body-IsTypedBody : IsTypedBody body
body-IsTypedBody = record {
  descriptor = descriptor-IsTyped;
  leaves = (
    (omega arith, wrapped-IsTypedKey 1),
    ((omega arith, wrapped-IsTypedKey 3), ((omega arith, wrapped-IsTypedKey 4), tt)),
  );
  payload = wrapped-IsTypedKey 9;
}

abbrev signer : List ℕ → Option (List ℕ)
signer message = some (replicate 64 7)

abbrev verify : List ℕ → List ℕ → List ℕ → Bool
verify key message signature = bytes_eq signature (replicate 64 7)

signer-Verifies : Verifies signer verify []
signer-Verifies message signature h =
    subst (λ s. (length s ≡ 64) × (bytes_eq s (replicate 64 7) ≡ true)) (some_injective h)
      (refl, bytes_eq_refl (replicate 64 7))

abbrev descriptor_raw : List ℕ
descriptor_raw = put_descriptor coder descriptor

abbrev body_raw : List ℕ
body_raw = put_body coder descriptor_raw body

abbrev raw : List ℕ
raw = put_envelope coder body_raw (replicate 64 7)

signed : sign coder hash valid_key signer body ≡ ok raw
unfolding sign leaf_list put_leaves put_wrapped
signed = refl

-- Bindings in another order, and a byte string after the end, are refused.
swapped :
    validate_descriptor hash valid_key (record descriptor { networks = binding 4 ∷ binding 3 ∷ [] })
    ≡ err invalid_provider
unfolding validate_descriptor leaf_list
swapped = refl

get_node-put_node_example :
    get_node coder 4 0 (put_node coder tree ++ (5 ∷ [])) ≡ ok (tree, node_count tree, 5 ∷ [])
unfolding node_count
get_node-put_node_example =
    get_node-put_node coder coder-IsCbor tree (5 ∷ []) tree-IsTypedNode tree-IsWithin (omega arith)

validate_descriptor_iff_example :
    (validate_descriptor hash valid_key descriptor ≡ ok tt) ↔ IsValid hash valid_key descriptor
validate_descriptor_iff_example = validate_descriptor_iff hash valid_key descriptor

read_descriptor_iff_example :
    (read_descriptor coder hash valid_key descriptor_raw ≡ ok descriptor)
    ↔ (descriptor_bytes coder hash valid_key descriptor ≡ ok descriptor_raw)
read_descriptor_iff_example =
    read_descriptor_iff coder coder-IsCbor hash valid_key descriptor_raw descriptor
      descriptor-IsTyped

read_body_iff_example :
    (read_body coder hash valid_key body_raw ≡ ok body)
    ↔ (body_bytes coder hash valid_key body ≡ ok body_raw)
read_body_iff_example =
    read_body_iff coder coder-IsCbor hash valid_key body_raw body body-IsTypedBody

authenticate-sign_example :
    (context : List ℕ) × (context_hash coder hash valid_key descriptor ≡ ok context)
    × (authenticate coder hash valid_key verify raw []
        ≡ ok (record { body = body; context = context }))
authenticate-sign_example =
    authenticate-sign coder hash valid_key coder-IsCbor signer verify [] raw body signer-Verifies
      body-IsTypedBody signed

abbrev context : List ℕ
context = hash (codes "leelo/v1/context" ++ (0 ∷ descriptor_raw))

authenticated :
    authenticate coder hash valid_key verify raw [] ≡ ok (record { body = body; context = context })
unfolding authenticate sign leaf_list put_leaves put_wrapped new layout roots node_count
authenticated = refl

authenticate-IsAuthentic_example :
    IsAuthentic coder hash valid_key verify raw [] (record { body = body; context = context })
authenticate-IsAuthentic_example =
    authenticate-IsAuthentic coder hash valid_key verify raw []
      (record { body = body; context = context }) authenticated
