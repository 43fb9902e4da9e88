-- ===== src/Telemetry/Emitter/Counters.antt =====
-- How the counters of the emitter of crates/leelo-telemetry/src/lib.rs account for a run of events.
use leelo.Base.{
  ℕ, ◌+◌, ◌%◌, ◌^◌, ◌<◌, ◌≡◌, refl, sym, ◌∙◌, subst, List, [], ◌∷◌, Bool, true, false, not, Option,
  none, some, length, if◌then◌else◌, arith,
}
use leelo.Telemetry.Record.{Event, Record}
use leelo.Telemetry.Emitter.{
  Emitter, EmitStatus, FixedBuffer, sent, dropped, drop_event, is_some, labels_valid, record_of,
  send_on, deliver, to_buffer, emit_to, emit,
}

abbrev pub is_sent : EmitStatus → ℕ
is_sent sent = 1
is_sent s = 0

abbrev pub is_dropped : EmitStatus → ℕ
is_dropped dropped = 1
is_dropped s = 0

-- What one call did: sent with no more drops, or one drop more; the path stays.
abbrev Counts : {S : Type 0} → Emitter S → EmitStatus × Emitter S → Type 0
Counts e (status, e') =
    (is_sent status + is_dropped status ≡ 1)
    × (e'.dropped ≡ e.dropped + is_dropped status)
    × (e'.path ≡ e.path)

drop-Counts :
    {S : Type 0} (e e₀ : Emitter S)
    → e.dropped + 1 < 2 ^ 64
    → e.path ≡ e₀.path
    → e.dropped ≡ e₀.dropped
    → Counts e₀ (drop_event e)
unfolding drop_event
drop-Counts e e₀ small same_path same = (omega arith, ground arith, same_path)

if_Counts :
    {S : Type 0} (e : Emitter S) (b : Bool) (x y : EmitStatus × Emitter S)
    → Counts e x
    → Counts e y
    → Counts e (if b then x else y)
if_Counts e true x y h k = h
if_Counts e false x y h k = k

-- One event, with what the clock and the socket answer to it.
pub record Call (D S : Type 0) : Type 0 where
  pub event : Event D
  pub now : Option ℕ
  pub send : S → List ℕ → List ℕ → Option ℕ

module _ {D F : Type 0} (as_seconds : D → F) (version : List ℕ) (is_duration : F → Bool)
    (pieces : Record F → Option (List (List ℕ))) {S : Type 0} where
  send_on-Counts :
      (send : S → List ℕ → List ℕ → Option ℕ) (path : List ℕ) (e e₀ : Emitter S) (b : FixedBuffer)
      (socket : Option S)
      → e.dropped + 1 < 2 ^ 64
      → e.path ≡ e₀.path
      → e.dropped ≡ e₀.dropped
      → Counts e₀ (send_on as_seconds version is_duration pieces send path e b socket)
  unfolding send_on
  send_on-Counts send path e e₀ b none small p d = drop-Counts e e₀ small p d
  send_on-Counts send path e e₀ b (some socket) small p d =
      if_Counts e₀ _ _ _ (omega arith, omega (arith, d), p) (drop-Counts e e₀ small p d)

  deliver-Counts :
      (send : S → List ℕ → List ℕ → Option ℕ) (path : List ℕ) (e e₀ : Emitter S)
      (o : Option FixedBuffer)
      → e.dropped + 1 < 2 ^ 64
      → e.path ≡ e₀.path
      → e.dropped ≡ e₀.dropped
      → Counts e₀ (deliver as_seconds version is_duration pieces send path e o)
  unfolding deliver
  deliver-Counts send path e e₀ none small p d = drop-Counts e e₀ small p d
  deliver-Counts send path e e₀ (some b) small p d =
      send_on-Counts send path e e₀ b e.socket small p d

  emit-Counts :
      (send : S → List ℕ → List ℕ → Option ℕ) (now : Option ℕ) (e : Emitter S) (event : Event D)
      (path : List ℕ)
      → e.dropped + 1 < 2 ^ 64
      → Counts e (emit_to as_seconds version is_duration pieces send now e event (some path))
  unfolding emit_to
  emit-Counts send now e event path small =
      let counted = record e { sequence = (e.sequence + 1) % 2 ^ 64 } in
      let buffer =
        to_buffer as_seconds version is_duration pieces
          (record_of as_seconds version is_duration pieces counted event e.sequence now) in
      let delivered = deliver as_seconds version is_duration pieces send path counted buffer in
      let drop_one = drop-Counts e e small refl refl in
      if_Counts e (not (is_some e.attempt_id)) (drop_event e) _ drop_one (
        if_Counts e (not (labels_valid event)) (drop_event e) delivered drop_one
          (deliver-Counts send path counted e buffer small refl refl))

  -- The events of a run, one after the other: how many were sent, how many dropped, and the emitter.
  abbrev pub emit_all : Emitter S → List (Call D S) → ℕ × ℕ × Emitter S
  emit_all e [] = (0, 0, e)
  emit_all e (call ∷ calls) =
      let (status, e') =
        emit as_seconds version is_duration pieces call.send call.now e call.event in
      let (sents, drops, last) = emit_all e' calls in
      (is_sent status + sents, is_dropped status + drops, last)

  -- However the clock and the socket answer, an emitter with a path sends or drops every event of a
  -- run, and its count of drops grows by exactly the number of dropped ones, as long as the count
  -- stays below 2 ^ 64.
  pub emit_all_lem :
      (calls : List (Call D S)) (e : Emitter S) (path : List ℕ)
      → e.path ≡ some path
      → e.dropped + length calls < 2 ^ 64
      → let (sents, drops, last) = emit_all e calls in
        (sents + drops ≡ length calls) × (last.dropped ≡ e.dropped + drops)
  emit_all_lem [] e path p small = (omega arith, omega arith)
  emit_all_lem (call ∷ calls) e path p small =
      let (one, more, kept) =
        subst
          (λ o.
            Counts e
              (emit_to as_seconds version is_duration pieces call.send call.now e call.event o))
          (sym p) (emit-Counts call.send call.now e call.event path (omega (arith, small))) in
      let e' = (emit as_seconds version is_duration pieces call.send call.now e call.event).1 in
      let (all, total) = emit_all_lem calls e' path (kept ∙ p) (omega (arith, small, one, more)) in
      (omega (arith, all, one), omega (arith, total, more))
