-- ===== src/Telemetry/Emitter/Sent.antt =====
-- What the emitter of crates/leelo-telemetry/src/lib.rs sends, and what `Record::decode` makes of it.
use leelo.Base.{
  ℕ, ◌+◌, ◌%◌, ◌^◌, ◌≤◌, ◌≡◌, inl, inr, refl, sym, ◌∙◌, ap, subst, List, Bool, true, false, not,
  Option, none, some, length, le→ltb_false, ==_iff, if◌then◌else◌, Option-cases,
}
use leelo.Telemetry.Record.{Event, Record, valid, decode, if_valid}
use leelo.Telemetry.Emitter.{
  Emitter, EmitStatus, FixedBuffer, empty_buffer, write_pieces, and_then, sent, disabled, dropped,
  drop_event, send_on, emit_to, is_some, is_all, labels_valid, record_of, deliver, to_buffer, emit,
}
use leelo.Telemetry.Emitter.Buffer.{concat, written, filled_empty}

abbrev IsFilledWith : List (List ℕ) → FixedBuffer → Type 0
IsFilledWith ps b =
    (written b ≡ concat ps) × (b.len ≡ length (concat ps)) × (length (concat ps) ≤ 4096)

-- What a pair with the status `sent` is not.
not_sent : {A : Type 0} {a a' : A} → ◌≡◌ {A = EmitStatus × A} (dropped, a) (sent, a') → ⊥
not_sent h = elim (status_differs (ap (λ p. p.0) h)) [ ]
  where
    status_differs : ¬ (dropped ≡ sent)
    status_differs e = cc

none_or :
    {A : Type 0} (b : Bool) (x : Option A) {v : A}
    → (if not b then none else x) ≡ some v
    → (b ≡ true) × (x ≡ some v)
none_or true x h = (refl, h)
none_or false x h = cc

sent_if :
    {A : Type 0} (b : Bool) {a a' : A} (other : A)
    → ◌≡◌ {A = EmitStatus × A} (if b then (sent, a) else (dropped, other)) (sent, a')
    → (b ≡ true) × (a ≡ a')
sent_if {A} true other h = (refl, ap (λ (p : EmitStatus × A). p.1) h)
sent_if false other h = absurd (not_sent h)

dropped_or :
    {A : Type 0} (b : Bool) (other : A) (x : EmitStatus × A) {a' : A}
    → (if not b then (dropped, other) else x) ≡ (sent, a')
    → (b ≡ true) × (x ≡ (sent, a'))
dropped_or true other x h = (refl, h)
dropped_or false other x h = absurd (not_sent h)

is_all-some : (taken : Option ℕ) (len : ℕ) → is_all taken len ≡ true → taken ≡ some len
is_all-some none len h = cc
is_all-some (some n) len h = ap some ((==_iff n len).0 h)

module _ {D F : Type 0} (as_seconds : D → F) (version : List ℕ) (is_duration : F → Bool)
    (pieces : Record F → Option (List (List ℕ))) where
  -- What the buffer of a record has: its own encoding.
  to_buffer_law :
      (r : Record F) (b : FixedBuffer)
      → to_buffer as_seconds version is_duration pieces r ≡ some b
      → (valid is_duration r ≡ true)
        × ((ps : List (List ℕ)) × (pieces r ≡ some ps) × IsFilledWith ps b)
  unfolding to_buffer
  to_buffer_law r b h =
      let (fine, made) = none_or (valid is_duration r) _ h in (fine, pieces_law made)
    where
      none_not_some : ¬ (◌≡◌ {A = Option FixedBuffer} none (some b))
      none_not_some e = cc

      pieces_law :
          and_then (pieces r) (write_pieces empty_buffer) ≡ some b
          → (ps : List (List ℕ)) × (pieces r ≡ some ps) × IsFilledWith ps b
      pieces_law e = elim (Option-cases (pieces r)) [
        | inl failed ↦
            absurd (
              none_not_some (subst (λ x. and_then x (write_pieces empty_buffer) ≡ some b) failed e))
        | inr (ps, made) ↦ (
          ps,
          made,
          filled_empty ps b (subst (λ x. and_then x (write_pieces empty_buffer) ≡ some b) made e),
        )
      ]

  module _ {S : Type 0} (send : S → List ℕ → List ℕ → Option ℕ) where
    send_on-sent :
        (path : List ℕ) (e e' : Emitter S) (b : FixedBuffer) (socket : Option S)
        → send_on as_seconds version is_duration pieces send path e b socket ≡ (sent, e')
        → (s : S) × (socket ≡ some s) × (send s path (written b) ≡ some b.len) × (e ≡ e')
    unfolding send_on drop_event
    send_on-sent path e e' b none h = absurd (not_sent h)
    send_on-sent path e e' b (some s) h =
        let (all, same) = sent_if (is_all (send s path (written b)) b.len) _ h in
        (s, refl, is_all-some (send s path (written b)) b.len all, same)

    deliver-sent :
        (path : List ℕ) (e e' : Emitter S) (o : Option FixedBuffer)
        → deliver as_seconds version is_duration pieces send path e o ≡ (sent, e')
        → (b : FixedBuffer) × (o ≡ some b)
          × ((s : S) × (e.socket ≡ some s) × (send s path (written b) ≡ some b.len) × (e ≡ e'))
    unfolding deliver drop_event
    deliver-sent path e e' none h = absurd (not_sent h)
    deliver-sent path e e' (some b) h = (b, refl, send_on-sent path e e' b e.socket h)

    -- A record has the event's fields, the emitter's identities and its counts from before, the
    -- clock's time and the version.
    pub record IsRecordOf (now : Option ℕ) (e : Emitter S) (event : Event D) (r : Record F)
        : Type 0 where
      pub schema : r.schema_version ≡ 1
      pub component : r.component ≡ event.component
      pub event_name : r.event ≡ event.event
      pub operation : r.operation ≡ event.operation
      pub stage : r.stage ≡ event.stage
      pub outcome : r.outcome ≡ event.outcome
      pub reason : r.reason ≡ event.reason
      pub duration : r.duration_seconds ≡ as_seconds event.duration
      pub mode : r.mode ≡ event.mode
      pub provider : r.provider_index ≡ event.provider_index
      pub storage_state : r.storage_state ≡ event.storage_state
      pub awaiting : r.awaiting_boot_test ≡ event.awaiting_boot_test
      pub degraded : r.degraded ≡ event.degraded
      pub native_code : r.native_code ≡ event.native_code
      pub software : r.software_version ≡ version
      pub attempt : r.attempt_id ≡ e.attempt_id
      pub boot : r.boot_id ≡ e.boot_id
      pub numbered : r.sequence ≡ e.sequence
      pub time : r.unix_time_ms ≡ now
      pub losses : r.dropped_before ≡ e.dropped

    -- The emitter's own socket took, for the emitter's own path, all of the encoding of a valid
    -- record of the event, which the size limit of `Record::decode` does not refuse.
    pub record IsDelivered (parse : List ℕ → Option (Record F)) (now : Option ℕ) (e e' : Emitter S)
        (event : Event D) : Type 0 where
      pub path : List ℕ
      pub socket : S
      pub attempt_id : List ℕ
      pub own_path : e.path ≡ some path
      pub own_socket : e.socket ≡ some socket
      pub own_attempt : e.attempt_id ≡ some attempt_id
      pub sent_record : Record F
      pub of_event : IsRecordOf now e event sent_record
      pub is_valid : valid is_duration sent_record ≡ true
      pub encoding : List (List ℕ)
      pub encoded : pieces sent_record ≡ some encoding
      pub taken : send socket path (concat encoding) ≡ some (length (concat encoding))
      pub decoded :
          decode parse is_duration (concat encoding)
          ≡ if_valid is_duration (parse (concat encoding))
      pub after : e' ≡ record e { sequence = (e.sequence + 1) % 2 ^ 64 }

    decode-if_valid :
        (parse : List ℕ → Option (Record F)) (bytes : List ℕ)
        → length bytes ≤ 4096
        → decode parse is_duration bytes ≡ if_valid is_duration (parse bytes)
    unfolding decode
    decode-if_valid parse bytes small = rw (le→ltb_false 4096 (length bytes) small) refl

    is_some-some : {A : Type 0} (o : Option A) → is_some o ≡ true → (a : A) × (o ≡ some a)
    is_some-some none h = cc
    is_some-some (some a) h = (a, refl)

    emit_to-sent :
        (parse : List ℕ → Option (Record F))
        → (now : Option ℕ) (e e' : Emitter S) (event : Event D) → (o : Option (List ℕ)) → e.path ≡ o
        → emit_to as_seconds version is_duration pieces send now e event o ≡ (sent, e')
        → IsDelivered parse now e e' event
    unfolding emit_to drop_event record_of
    emit_to-sent parse now e e' event none own h = absurd (not_sent' h)
      where
        differ : ¬ (disabled ≡ sent)
        differ g = cc

        not_sent' : ¬ (◌≡◌ {A = EmitStatus × Emitter S} (disabled, e) (sent, e'))
        not_sent' g = elim (differ (ap (λ (p : EmitStatus × Emitter S). p.0) g)) [ ]
    emit_to-sent parse now e e' event (some path) own h =
        let counted = record e { sequence = (e.sequence + 1) % 2 ^ 64 } in
        let r = record_of as_seconds version is_duration pieces counted event e.sequence now in
        let (known, h₁) = dropped_or (is_some e.attempt_id) _ _ h in
        let (_, h₂) = dropped_or (labels_valid event) _ _ h₁ in
        let (b, buffered, (s, own_socket, taken, same)) =
          deliver-sent path counted e' (to_buffer as_seconds version is_duration pieces r) h₂ in
        let (fine, (ps, made, (holds, size, small))) = to_buffer_law r b buffered in
        let (attempt_id, own_attempt) = is_some-some e.attempt_id known in
        record {
          path = path;
          socket = s;
          attempt_id = attempt_id;
          own_path = own;
          own_socket = own_socket;
          own_attempt = own_attempt;
          sent_record = r;
          of_event = record {
            schema = refl;
            component = refl;
            event_name = refl;
            operation = refl;
            stage = refl;
            outcome = refl;
            reason = refl;
            duration = refl;
            mode = refl;
            provider = refl;
            storage_state = refl;
            awaiting = refl;
            degraded = refl;
            native_code = refl;
            software = refl;
            attempt = refl;
            boot = refl;
            numbered = refl;
            time = refl;
            losses = refl;
          };
          is_valid = fine;
          encoding = ps;
          encoded = made;
          taken =
              subst (λ x. send s path x ≡ some (length (concat ps))) holds (taken ∙ ap some size);
          decoded = decode-if_valid parse (concat ps) small;
          after = sym same;
        }

    -- When `emit` says that an event was sent, then the emitter has a path, a socket and an attempt
    -- identity, its socket took for that path all of the encoding of a record, and the record is
    -- valid and has every field of the event, the emitter's identities, the clock's time, the version
    -- and the emitter's count of events and of drops before it. `Record::decode` gives of those bytes
    -- what the JSON reader reads, if it is valid: they are within its size limit. The count of events
    -- goes up by one, modulo 2 ^ 64, and nothing else of the emitter changes.
    pub emit-sent :
        (parse : List ℕ → Option (Record F))
        → (now : Option ℕ) (e e' : Emitter S) (event : Event D)
        → emit as_seconds version is_duration pieces send now e event ≡ (sent, e')
        → IsDelivered parse now e e' event
    emit-sent parse now e e' event h = emit_to-sent parse now e e' event e.path refl h
