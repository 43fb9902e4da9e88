-- ===== src/Telemetry/Record.antt =====
-- Records of crates/leelo-telemetry/src/lib.rs and their validation. Texts are their bytes, and an
-- `i64` its 64 bits. Parameters: `F`, for `f64`, and `is_duration`, for `is_finite` and the range
-- from 0 to 604800.
use leelo.Base.{
  is_within, ℕ, List, [], ◌∷◌, Bool, true, ◌&&◌, ◌||◌, ◌==◌, Option, none, some, leb, ltb, length,
  if◌then◌else◌,
}
use leelo.Telemetry.Vocabulary.{
  all_of, valid_label, is_listed, components, events, operations, stages, outcomes, reasons, modes,
  storage_states,
}

abbrev pub max_event_bytes : ℕ
max_event_bytes = 4096

abbrev pub schema_version : ℕ
schema_version = 1

-- `D` is `Duration`.
pub record Event (D : Type 0) : Type 0 where
  pub component : List ℕ
  pub event : List ℕ
  pub operation : List ℕ
  pub stage : List ℕ
  pub outcome : List ℕ
  pub reason : List ℕ
  pub duration : D
  pub mode : List ℕ
  pub provider_index : Option ℕ
  pub storage_state : List ℕ
  pub awaiting_boot_test : Bool
  pub degraded : Bool
  pub native_code : Option ℕ

pub record Record (F : Type 0) : Type 0 where
  pub schema_version : ℕ
  pub component : List ℕ
  pub event : List ℕ
  pub operation : List ℕ
  pub stage : List ℕ
  pub outcome : List ℕ
  pub reason : List ℕ
  pub duration_seconds : F
  pub mode : List ℕ
  pub provider_index : Option ℕ
  pub storage_state : List ℕ
  pub awaiting_boot_test : Bool
  pub degraded : Bool
  pub native_code : Option ℕ
  pub software_version : List ℕ
  pub attempt_id : Option (List ℕ)
  pub boot_id : Option (List ℕ)
  pub sequence : ℕ
  pub unix_time_ms : Option ℕ
  pub dropped_before : ℕ

abbrev pub is_provider_index : Option ℕ → Bool
is_provider_index none = true
is_provider_index (some index) = is_within 1 31 index

module _ {F : Type 0} where
  unfoldable pub vocabulary : Record F → Bool
  vocabulary r =
      is_listed r.component components
      && is_listed r.event events
      && is_listed r.operation operations
      && is_listed r.mode modes
      && is_listed r.storage_state storage_states
      && is_listed r.stage stages
      && is_listed r.outcome outcomes
      && is_listed r.reason reasons

  unfoldable pub valid : (F → Bool) → Record F → Bool
  valid is_duration r =
      r.schema_version == schema_version
      && leb (length r.software_version) 48
      && all_of
          (λ v.
            is_within 48 57 v
            || is_within 65 90 v
            || is_within 97 122 v
            || v == 46
            || v == 45
            || v == 95)
          r.software_version
      && all_of valid_label (
          r.component ∷ r.event ∷ r.operation ∷ r.stage ∷ r.outcome ∷ r.reason ∷ r.mode
          ∷ r.storage_state ∷ [])
      && is_duration r.duration_seconds
      && is_provider_index r.provider_index
      && vocabulary r

  abbrev pub if_valid : (F → Bool) → Option (Record F) → Option (Record F)
  if_valid is_duration none = none
  if_valid is_duration (some r) = if valid is_duration r then some r else none

  -- `parse` is `serde_json::from_slice`.
  unfoldable pub decode : (List ℕ → Option (Record F)) → (F → Bool) → List ℕ → Option (Record F)
  decode parse is_duration bytes =
      if ltb max_event_bytes (length bytes) then none else if_valid is_duration (parse bytes)
