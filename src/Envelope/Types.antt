-- ===== src/Envelope/Types.antt =====
-- The types of crates/leelo-envelope/src/lib.rs, and `WrappedKey` of crates/leelo-crypto.
use leelo.Base.{ℕ, ◌*◌, List}
use leelo.Policy.Compile.{ProductionPolicy}

abbrev pub max_envelope : ℕ
max_envelope = 64 * 1024

abbrev pub max_tpm_blob : ℕ
max_tpm_blob = 4096

pub data Error : Type 0 where
  too_large malformed non_canonical unsupported invalid_policy invalid_provider invalid_signature :
      Error

pub record NetworkBinding : Type 0 where
  pub node_id : ℕ
  pub provider_id : List ℕ
  pub key_id : List ℕ
  pub public_key : List ℕ
  pub input_seed : List ℕ

pub record Descriptor : Type 0 where
  pub binding_id : List ℕ
  pub volume_uuid : List ℕ
  pub slot : ℕ
  pub generation : ℕ
  pub policy : ProductionPolicy
  pub networks : List NetworkBinding
  pub tpm_pcr_mask : ℕ
  pub tpm_pcr_digest : List ℕ

pub record TpmBlob : Type 0 where
  pub public : List ℕ
  pub private : List ℕ
  pub name : List ℕ
  pub parent_name : List ℕ

pub record WrappedKey : Type 0 where
  pub nonce : List ℕ
  pub ciphertext : List ℕ

pub record WrappedLeaf : Type 0 where
  pub node_id : ℕ
  pub value : WrappedKey

pub record EnvelopeBody : Type 0 where
  pub descriptor : Descriptor
  pub tpm : TpmBlob
  pub leaves : List WrappedLeaf
  pub payload : WrappedKey

pub record AuthenticatedEnvelope : Type 0 where
  pub body : EnvelopeBody
  pub context : List ℕ
