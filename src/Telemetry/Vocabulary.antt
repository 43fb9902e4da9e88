-- ===== src/Telemetry/Vocabulary.antt =====
-- The labels that crates/leelo-telemetry/src/lib.rs admits in a record, `valid_label` and the lists
-- of `vocabulary`.
use leelo.Base.{
  is_within, ℕ, List, [], ◌∷◌, Bool, true, false, not, ◌&&◌, ◌||◌, ◌==◌, leb, length, bytes_eq,
  codes,
}

abbrev pub all_of : {A : Type 0} → (A → Bool) → List A → Bool
all_of test [] = true
all_of test (x ∷ xs) = test x && all_of test xs

unfoldable pub valid_label : List ℕ → Bool
valid_label value =
    not (length value == 0)
    && leb (length value) 48
    && all_of (λ v. is_within 97 122 v || is_within 48 57 v || v == 95) value

unfoldable pub is_listed : List ℕ → List (List ℕ) → Bool
is_listed value [] = false
is_listed value (word ∷ words) = bytes_eq word value || is_listed value words

abbrev pub components : List (List ℕ)
components = codes "client" ∷ codes "frontend" ∷ codes "worker" ∷ codes "leelod" ∷ []

abbrev pub events : List (List ℕ)
events =
    codes "operation_started"
    ∷ codes "operation_completed"
    ∷ codes "provider_completed"
    ∷ codes "phase_started"
    ∷ codes "phase_completed"
    ∷ codes "enrollment_state"
    ∷ codes "key_creation"
    ∷ codes "service_start"
    ∷ codes "service_ready"
    ∷ codes "service_stop"
    ∷ codes "service_failed"
    ∷ codes "telemetry_failed"
    ∷ codes "worker_peer_denied"
    ∷ codes "capacity_rejected"
    ∷ codes "evaluation_failed"
    ∷ codes "listener_recovered"
    ∷ codes "listener_impaired"
    ∷ codes "listener_failed"
    ∷ codes "snapshot_listener_failed"
    ∷ codes "worker_reply_invalid"
    ∷ []

abbrev pub operations : List (List ℕ)
operations =
    codes "enroll"
    ∷ codes "resume"
    ∷ codes "check"
    ∷ codes "activate"
    ∷ codes "keygen"
    ∷ codes "inspect"
    ∷ codes "pcr_digest"
    ∷ codes "serve"
    ∷ []

abbrev pub modes : List (List ℕ)
modes = codes "none" ∷ codes "unknown" ∷ codes "network_bound" ∷ codes "attested" ∷ []

abbrev pub storage_states : List (List ℕ)
storage_states =
    codes "not_applicable"
    ∷ codes "not_mutated"
    ∷ codes "pending_reconciliation"
    ∷ codes "committed"
    ∷ codes "unknown"
    ∷ []

abbrev pub stages : List (List ℕ)
stages =
    codes "preflight"
    ∷ codes "preflight_durable"
    ∷ codes "prepare"
    ∷ codes "recover"
    ∷ codes "recovery_test"
    ∷ codes "activate"
    ∷ codes "check"
    ∷ codes "validate"
    ∷ codes "tpm_seal"
    ∷ codes "network"
    ∷ codes "tpm_unseal"
    ∷ codes "authenticate_payload"
    ∷ codes "prepare_payload"
    ∷ codes "share_generation"
    ∷ codes "pending_bundle"
    ∷ codes "pending_bundle_durable"
    ∷ codes "prepared_and_recovery_tested"
    ∷ codes "storage_commit"
    ∷ codes "storage_committed"
    ∷ codes "storage_attach"
    ∷ codes "final_journal"
    ∷ codes "final_journal_durable"
    ∷ codes "key_file"
    ∷ codes "key_load"
    ∷ codes "startup"
    ∷ codes "service"
    ∷ codes "socket_directory"
    ∷ codes "listener"
    ∷ codes "snapshot"
    ∷ codes "readiness"
    ∷ codes "admission"
    ∷ codes "crypto"
    ∷ codes "connection"
    ∷ codes "ipc"
    ∷ codes "tls_config"
    ∷ []

abbrev pub outcomes : List (List ℕ)
outcomes =
    codes "started"
    ∷ codes "success"
    ∷ codes "failure"
    ∷ codes "observed"
    ∷ codes "not_started"
    ∷ codes "authenticated"
    ∷ codes "failed"
    ∷ codes "canceled_quorum"
    ∷ codes "canceled_deadline"
    ∷ codes "canceled_operation"
    ∷ []

abbrev pub reasons : List (List ℕ)
reasons =
    codes "none"
    ∷ codes "envelope"
    ∷ codes "cryptography"
    ∷ codes "sharing"
    ∷ codes "policy"
    ∷ codes "tpm"
    ∷ codes "insufficient_factors"
    ∷ codes "deadline"
    ∷ codes "inconsistent_shares"
    ∷ codes "target_mismatch"
    ∷ codes "unsupported_mode"
    ∷ codes "runtime"
    ∷ codes "configuration"
    ∷ codes "unavailable"
    ∷ codes "timeout"
    ∷ codes "remote_rejected"
    ∷ codes "invalid_response"
    ∷ codes "invalid_proof"
    ∷ codes "authentication"
    ∷ codes "io"
    ∷ codes "cryptsetup"
    ∷ codes "partial_enrollment"
    ∷ codes "writer_busy"
    ∷ codes "metadata_changed"
    ∷ codes "occupied_slot"
    ∷ codes "metadata_capacity"
    ∷ codes "invalid_token"
    ∷ codes "wrong_volume"
    ∷ codes "storage"
    ∷ codes "configuration_or_operation"
    ∷ codes "peer_uid"
    ∷ codes "peer_credentials"
    ∷ codes "capacity"
    ∷ codes "randomness"
    ∷ codes "cryptographic_operation"
    ∷ codes "temporary_accept"
    ∷ codes "fatal_accept"
    ∷ codes "invalid_reply"
    ∷ codes "invalid_key_file"
    ∷ codes "invalid_directory"
    ∷ codes "bind_failed"
    ∷ codes "permissions_failed"
    ∷ codes "setup_failed"
    ∷ codes "notify_failed"
    ∷ codes "invalid_configuration"
    ∷ codes "key_creation_failed"
    ∷ codes "service_failed"
    ∷ codes "accept_error"
    ∷ codes "listener_error"
    ∷ []
