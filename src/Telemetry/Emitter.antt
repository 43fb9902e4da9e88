-- ===== src/Telemetry/Emitter.antt =====
-- The emitter of crates/leelo-telemetry/src/lib.rs, with its fixed buffer. Parameters: `F` and
-- `is_duration` as for records, `D` for `Duration` and `as_seconds` for `as_secs_f64`, the version
-- of the package, and `pieces`, the byte strings that `serde_json::to_writer` writes, if it can.
pub mod Buffer
pub mod Sent
pub mod Counters
use leelo.Base.{
  ℕ, ◌+◌, ◌-◌, ◌^◌, ◌%◌, List, [], ◌∷◌, ◌++◌, Bool, true, false, not, ◌&&◌, ◌||◌, ◌==◌, Option,
  none, some, ltb, length, take, drop, replicate, if◌then◌else◌,
}
use leelo.Telemetry.Vocabulary.{all_of, valid_label}
use leelo.Telemetry.Record.{Event, Record, max_event_bytes, schema_version, valid}

pub record FixedBuffer : Type 0 where
  pub bytes : List ℕ
  pub len : ℕ

abbrev pub empty_buffer : FixedBuffer
empty_buffer = record { bytes = replicate max_event_bytes 0; len = 0 }

-- `Write::write`; it writes all of `new` or fails.
unfoldable pub write : FixedBuffer → List ℕ → Option FixedBuffer
write b new =
    if ltb (length b.bytes - b.len) (length new)
    then none
    else some (record {
      bytes = take b.len b.bytes ++ new ++ drop (b.len + length new) b.bytes;
      len = b.len + length new;
    })

abbrev pub and_then : {A B : Type 0} → Option A → (A → Option B) → Option B
and_then none f = none
and_then (some a) f = f a

unfoldable pub write_pieces : FixedBuffer → List (List ℕ) → Option FixedBuffer
write_pieces b [] = some b
write_pieces b (piece ∷ rest) = and_then (write b piece) (λ b'. write_pieces b' rest)

pub data EmitStatus : Type 0 where
  sent disabled dropped : EmitStatus

-- `S` is the socket; the counters are `u64`.
pub record Emitter (S : Type 0) : Type 0 where
  pub path : Option (List ℕ)
  pub socket : Option S
  pub attempt_id : Option (List ℕ)
  pub boot_id : Option (List ℕ)
  pub sequence : ℕ
  pub dropped : ℕ

-- `Emitter::new`, from a path, the identity that randomness gave, the system's boot identity and a
-- socket, each only if there is a path.
unfoldable pub new :
    {S : Type 0} → Option (List ℕ) → Option (List ℕ) → Option (List ℕ) → Option S → Emitter S
new none attempt_id boot_id socket = record {
  path = none;
  socket = none;
  attempt_id = none;
  boot_id = none;
  sequence = 0;
  dropped = 0;
}
new (some path) attempt_id boot_id socket = record {
  path = some path;
  socket = socket;
  attempt_id = attempt_id;
  boot_id = boot_id;
  sequence = 0;
  dropped = 0;
}

abbrev pub saturating_add_one : ℕ → ℕ
saturating_add_one count = if count == 2 ^ 64 - 1 then count else count + 1

module _ {S : Type 0} where
  unfoldable pub drop_event : Emitter S → EmitStatus × Emitter S
  drop_event e = (dropped, record e { dropped = saturating_add_one e.dropped })

abbrev pub is_some : {A : Type 0} → Option A → Bool
is_some none = false
is_some (some a) = true

-- Whether the socket took all of the bytes.
abbrev pub is_all : Option ℕ → ℕ → Bool
is_all none len = false
is_all (some n) len = n == len

module _ {D : Type 0} where
  unfoldable pub labels_valid : Event D → Bool
  labels_valid event = all_of valid_label (
      event.component ∷ event.event ∷ event.operation ∷ event.stage ∷ event.outcome ∷ event.reason
      ∷ event.mode ∷ event.storage_state ∷ [])

module _ {D F : Type 0} (as_seconds : D → F) (version : List ℕ) (is_duration : F → Bool)
    (pieces : Record F → Option (List (List ℕ))) where
  unfoldable pub to_buffer : Record F → Option FixedBuffer
  to_buffer r =
      if not (valid is_duration r) then none else and_then (pieces r) (write_pieces empty_buffer)

  module _ {S : Type 0} where
    unfoldable pub record_of : Emitter S → Event D → ℕ → Option ℕ → Record F
    record_of e event sequence now = record {
      schema_version = schema_version;
      component = event.component;
      event = event.event;
      operation = event.operation;
      stage = event.stage;
      outcome = event.outcome;
      reason = event.reason;
      duration_seconds = as_seconds event.duration;
      mode = event.mode;
      provider_index = event.provider_index;
      storage_state = event.storage_state;
      awaiting_boot_test = event.awaiting_boot_test;
      degraded = event.degraded;
      native_code = event.native_code;
      software_version = version;
      attempt_id = e.attempt_id;
      boot_id = e.boot_id;
      sequence = sequence;
      unix_time_ms = now;
      dropped_before = e.dropped;
    }

    -- `send` is `send_to` on a socket: the number of bytes it took, or none for its error.
    unfoldable pub send_on :
        (S → List ℕ → List ℕ → Option ℕ)
        → List ℕ
        → Emitter S
        → FixedBuffer
        → Option S
        → EmitStatus × Emitter S
    send_on send path e buffer none = drop_event e
    send_on send path e buffer (some socket) =
        if is_all (send socket path (take buffer.len buffer.bytes)) buffer.len
        then (sent, e)
        else drop_event e

    unfoldable pub deliver :
        (S → List ℕ → List ℕ → Option ℕ)
        → List ℕ
        → Emitter S
        → Option FixedBuffer
        → EmitStatus × Emitter S
    deliver send path e none = drop_event e
    deliver send path e (some buffer) = send_on send path e buffer e.socket

    -- `now` is what `unix_time_ms` gives.
    unfoldable pub emit_to :
        (S → List ℕ → List ℕ → Option ℕ)
        → Option ℕ
        → Emitter S
        → Event D
        → Option (List ℕ)
        → EmitStatus × Emitter S
    emit_to send now e event none = (disabled, e)
    emit_to send now e event (some path) =
        let counted = record e { sequence = (e.sequence + 1) % 2 ^ 64 } in
        if not (is_some e.attempt_id)
        then drop_event e
        else if not (labels_valid event)
        then drop_event e
        else deliver send path counted (to_buffer (record_of counted event e.sequence now))

    abbrev pub emit :
        (S → List ℕ → List ℕ → Option ℕ) → Option ℕ → Emitter S → Event D → EmitStatus × Emitter S
    emit send now e event = emit_to send now e event e.path
