-- ===== src/Telemetry/Tests.antt =====
-- Concrete runs of the emitter of crates/leelo-telemetry/src/lib.rs, with toy parameters.
use leelo.Base.{
  ℕ, ◌+◌, ◌≤◌, ◌≡◌, ◌↔◌, refl, List, [], ◌∷◌, Bool, true, false, Option, none, some, leb, length,
  replicate, codes, arith, bytes_eq,
}
use leelo.Telemetry.Vocabulary.{valid_label, is_listed}
use leelo.Telemetry.Record.{Event, Record, valid, vocabulary}
use leelo.Telemetry.Emitter.{
  Emitter, FixedBuffer, empty_buffer, write, write_pieces, sent, dropped, drop_event, labels_valid,
  record_of, send_on, deliver, to_buffer, emit_to, emit,
}
use leelo.Telemetry.Emitter.Buffer.{concat, written, write_pieces_iff}
use leelo.Telemetry.Emitter.Sent.{IsDelivered, emit-sent}
use leelo.Telemetry.Emitter.Counters.{Call, emit_all, emit_all_lem}

abbrev event : Event ℕ
event = record {
  component = codes "client";
  event = codes "operation_completed";
  operation = codes "activate";
  stage = codes "activate";
  outcome = codes "success";
  reason = codes "none";
  duration = 3;
  mode = codes "none";
  provider_index = some 31;
  storage_state = codes "not_applicable";
  awaiting_boot_test = false;
  degraded = false;
  native_code = none;
}

-- A reason that is no label, and one that is in no list.
abbrev free_text : Event ℕ
free_text = record event { reason = codes "request body: secret" }

abbrev unlisted : Event ℕ
unlisted = record event { reason = codes "deadbeefcafebabe" }

abbrev seconds : ℕ → ℕ
seconds d = d

abbrev is_duration : ℕ → Bool
is_duration d = leb d 604800

abbrev version : List ℕ
version = codes "0.1.0"

abbrev pieces : Record ℕ → Option (List (List ℕ))
pieces r = some (codes "{" ∷ codes "}" ∷ [])

-- A socket that takes everything, and one that is full.
abbrev takes : ℕ → List ℕ → List ℕ → Option ℕ
takes socket path bytes = some (length bytes)

abbrev is_full : ℕ → List ℕ → List ℕ → Option ℕ
is_full socket path bytes = none

abbrev emitter : Emitter ℕ
emitter = record {
  path = some (codes "/s");
  socket = some 0;
  attempt_id = some (replicate 16 9);
  boot_id = none;
  sequence = 7;
  dropped = 2;
}

abbrev after : Emitter ℕ
after = record emitter { sequence = 8 }

abbrev first_record : Record ℕ
first_record = record {
  schema_version = 1;
  component = codes "client";
  event = codes "operation_completed";
  operation = codes "activate";
  stage = codes "activate";
  outcome = codes "success";
  reason = codes "none";
  duration_seconds = 3;
  mode = codes "none";
  provider_index = some 31;
  storage_state = codes "not_applicable";
  awaiting_boot_test = false;
  degraded = false;
  native_code = none;
  software_version = version;
  attempt_id = some (replicate 16 9);
  boot_id = none;
  sequence = 7;
  unix_time_ms = some 5;
  dropped_before = 2;
}

abbrev parse : List ℕ → Option (Record ℕ)
parse bytes = some first_record

is_valid : valid is_duration first_record ≡ true
unfolding valid vocabulary valid_label is_listed bytes_eq
is_valid = refl

sent_first : emit seconds version is_duration pieces takes (some 5) emitter event ≡ (sent, after)
unfolding emit_to deliver send_on to_buffer write_pieces write valid vocabulary valid_label
    is_listed bytes_eq labels_valid record_of
sent_first = refl

-- A full socket, an unlisted reason after the count of events, and free text before it.
full :
    emit seconds version is_duration pieces is_full (some 5) emitter event
    ≡ (dropped, record emitter { sequence = 8; dropped = 3 })
unfolding emit_to deliver send_on to_buffer write_pieces write valid vocabulary valid_label
    is_listed bytes_eq labels_valid record_of drop_event
full = refl

unlisted_reason :
    emit seconds version is_duration pieces takes (some 5) emitter unlisted
    ≡ (dropped, record emitter { sequence = 8; dropped = 3 })
unfolding emit_to deliver send_on to_buffer write_pieces write valid vocabulary valid_label
    is_listed bytes_eq labels_valid record_of drop_event
unlisted_reason = refl

free_text_reason :
    emit seconds version is_duration pieces takes (some 5) emitter free_text
    ≡ (dropped, record emitter { dropped = 3 })
unfolding emit_to deliver send_on to_buffer write_pieces write valid vocabulary valid_label
    is_listed bytes_eq labels_valid record_of drop_event
free_text_reason = refl

emit-sent_example :
    IsDelivered seconds version is_duration pieces takes parse (some 5) emitter after event
emit-sent_example =
    emit-sent seconds version is_duration pieces takes parse (some 5) emitter after event sent_first

abbrev calls : List (Call ℕ ℕ)
calls =
    record { event = event; now = some 5; send = takes }
    ∷ record { event = free_text; now = none; send = takes }
    ∷ record { event = event; now = some 6; send = is_full }
    ∷ []

emit_all_lem_example :
    let (sents, drops, last) = emit_all seconds version is_duration pieces emitter calls in
    (sents + drops ≡ 3) × (last.dropped ≡ 2 + drops)
emit_all_lem_example =
    emit_all_lem seconds version is_duration pieces calls emitter (codes "/s") refl (omega arith)

write_pieces_iff_example :
    ((b : FixedBuffer) × (write_pieces empty_buffer (codes "ab" ∷ codes "c" ∷ []) ≡ some b)
      × (written b ≡ codes "abc"))
    ↔ ((concat (codes "ab" ∷ codes "c" ∷ []) ≡ codes "abc") × (length (codes "abc") ≤ 4096))
write_pieces_iff_example = write_pieces_iff (codes "ab" ∷ codes "c" ∷ []) (codes "abc")
