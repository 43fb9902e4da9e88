-- ===== src/Engine/Release/Order.antt =====
-- The order that the gate of crates/leelo-engine/src/release.rs imposes on evidence.
use leelo.Base.{
  ℕ, zero, suc, ◌⊎◌, inl, inr, ◌+◌, ◌≤◌, ◌≡◌, ◌↔◌, refl, sym, ◌∙◌, ap, ap₂, Bool, true, false, not,
  ◌&&◌, ◌||◌, List, [], ◌∷◌, ◌==◌, arith, bytes_eq, bytes_eq→eq, eq→bytes_eq, bytes_eq_refl,
  Bool-cases, ltb,
}
use leelo.Engine.Release.{ReleaseState, new, matches, advance, network, tpm, payload, release}

-- The gate's calls, with the context that each one names.
pub data Event : Type 0 where
  network_done : List ℕ → Event
  tpm_done : List ℕ → Bool → Event
  payload_done : List ℕ → Event
  released : List ℕ → Bool → Event

unfoldable pub step : ReleaseState → Event → ReleaseState × Bool
step s (network_done c) = network s c
step s (tpm_done c live) = tpm s c live
step s (payload_done c) = payload s c
step s (released c within_deadline) = release s c within_deadline

-- The events that the gate accepted, the last first.
abbrev pub noted : Event → Bool → List Event → List Event
noted e true log = e ∷ log
noted e false log = log

unfoldable pub run : ReleaseState → List Event → List Event → ReleaseState × List Event
unfolding step
run s log [] = (s, log)
run s log (e ∷ events) = let r = step s e in run r.0 (noted e r.1 log) events

-- The event that ends each phase, for the operation's context, and the live flag that the TPM showed.
abbrev pub event_at : List ℕ → Bool → ℕ → Event
event_at context live zero = network_done context
event_at context live (suc zero) = tpm_done context live
event_at context live (suc (suc zero)) = payload_done context
event_at context live (suc (suc (suc phase))) = released context true

-- The events of the phases below `phase`, the last first.
abbrev pub evidence : List ℕ → Bool → ℕ → List Event
evidence context live zero = []
evidence context live (suc phase) = event_at context live phase ∷ evidence context live phase

pub record IsOrdered (s : ReleaseState) (log : List Event) : Type 0 where
  pub live : Bool
  pub in_order : log ≡ evidence s.context live s.phase
  pub live_shown : 2 ≤ s.phase → s.require_live ≡ true → live ≡ true
  pub bounded : s.phase ≤ 4

advance-cases :
    (s : ReleaseState) (c : List ℕ) (expected : ℕ) (live : Bool)
    → (advance s c expected live ≡ (s, false))
      ⊎ ((s.context ≡ c)
          × (s.phase ≡ expected)
          × (expected ≡ 1 → s.require_live ≡ true → live ≡ true)
          × (advance s c expected live ≡ (record s { phase = expected + 1 }, true)))
unfolding advance
advance-cases s c expected live =
    elim (Bool-cases (
      not (bytes_eq s.context c)
      || not (s.phase == expected)
      || (expected == 1 && s.require_live && not live))) [
        | inl blocked ↦ inl (rw blocked)
        | inr clear ↦ inr (
          ground (arith, bytes_eq→eq s.context c),
          ground arith,
          λ first required. ground arith,
          rw clear,
        )
      ]

-- A call names the gate's context and its current phase and, if that phase is the TPM's and the gate
-- requires live authorization, shows the live authorization.
abbrev pub Permits : ReleaseState → List ℕ → ℕ → Bool → Type 0
Permits s c expected live =
    (s.context ≡ c) × (s.phase ≡ expected) × (expected ≡ 1 → s.require_live ≡ true → live ≡ true)

advance-Permits :
    (s : ReleaseState) (c : List ℕ) (expected : ℕ) (live : Bool)
    → ((advance s c expected live).1 ≡ true) ↔ Permits s c expected live
unfolding advance matches
advance-Permits s c expected live = (
  λ h. (ground (arith, bytes_eq→eq s.context c), ground arith, λ first required. ground arith),
  λ h. ground (arith, eq→bytes_eq s.context c),
)

-- The gate moves to the next phase, keeping its context and its requirement, and says so, exactly
-- when a call names its context and its current phase and shows the live authorization where the
-- gate requires one for the TPM's phase; on every other call it refuses and stays as it is.
pub advance_iff :
    (s : ReleaseState) (c : List ℕ) (expected : ℕ) (live : Bool)
    → (((advance s c expected live).1 ≡ true) ↔ Permits s c expected live)
      × (Permits s c expected live
          → ((advance s c expected live).0.phase ≡ s.phase + 1)
            × ((advance s c expected live).0.context ≡ s.context)
            × ((advance s c expected live).0.require_live ≡ s.require_live))
      × (¬ Permits s c expected live → advance s c expected live ≡ (s, false))
advance_iff s c expected live = (
  advance-Permits s c expected live,
  λ p. elim (advance-cases s c expected live) [
    | inl refused ↦
        absurd
          (accepted_false (ap (λ r. r.1) (sym refused) ∙ (advance-Permits s c expected live).1 p))
    | inr (same, first, needs, done) ↦ rw done (omega (arith, first), refl, refl)
  ],
  λ never. elim (advance-cases s c expected live) [
    | inl refused ↦ refused
    | inr (same, first, needs, done) ↦ absurd (never (same, first, needs))
  ],
)
  where
    accepted_false : ¬ (false ≡ true)
    accepted_false h = cc

module _ (s : ReleaseState) (log : List Event) (o : IsOrdered s log) where
  log_at : {phase : ℕ} → s.phase ≡ phase → log ≡ evidence s.context o.live phase
  log_at e = o.in_order ∙ ap (evidence s.context o.live) e

  network-IsOrdered :
      (c : List ℕ) → IsOrdered (network s c).0 (noted (network_done c) (network s c).1 log)
  unfolding network
  network-IsOrdered c = elim (advance-cases s c 0 false) [
    | inl refused ↦ rw refused o
    | inr (same, first, needs, done) ↦ rw done (record {
      live = o.live;
      in_order = ap₂ ◌∷◌ (ap network_done (sym same)) (log_at first);
      live_shown = λ late. absurd (omega arith);
      bounded = omega arith;
    })
  ]

  tpm-IsOrdered :
      (c : List ℕ) (live : Bool)
      → IsOrdered (tpm s c live).0 (noted (tpm_done c live) (tpm s c live).1 log)
  unfolding tpm
  tpm-IsOrdered c live = elim (advance-cases s c 1 live) [
    | inl refused ↦ rw refused o
    | inr (same, first, needs, done) ↦ rw done (record {
      live = live;
      in_order = ap₂ ◌∷◌ (ap (λ x. tpm_done x live) (sym same)) (log_at first);
      live_shown = λ late required. needs refl required;
      bounded = omega arith;
    })
  ]

  payload-IsOrdered :
      (c : List ℕ) → IsOrdered (payload s c).0 (noted (payload_done c) (payload s c).1 log)
  unfolding payload
  payload-IsOrdered c = elim (advance-cases s c 2 false) [
    | inl refused ↦ rw refused o
    | inr (same, first, needs, done) ↦ rw done (record {
      live = o.live;
      in_order = ap₂ ◌∷◌ (ap payload_done (sym same)) (log_at first);
      live_shown = λ late. o.live_shown (omega arith);
      bounded = omega arith;
    })
  ]

  release-IsOrdered :
      (c : List ℕ) (within_deadline : Bool)
      → IsOrdered
          (release s c within_deadline).0
          (noted (released c within_deadline) (release s c within_deadline).1 log)
  unfolding release
  release-IsOrdered c false = o
  release-IsOrdered c true = elim (advance-cases s c 3 false) [
    | inl refused ↦ rw refused o
    | inr (same, first, needs, done) ↦ rw done (record {
      live = o.live;
      in_order = ap₂ ◌∷◌ (ap (λ x. released x true) (sym same)) (log_at first);
      live_shown = λ late. o.live_shown (omega arith);
      bounded = omega arith;
    })
  ]

step-IsOrdered :
    (s : ReleaseState) (e : Event) (log : List Event)
    → IsOrdered s log
    → IsOrdered (step s e).0 (noted e (step s e).1 log)
unfolding step
step-IsOrdered s (network_done c) log o = network-IsOrdered s log o c
step-IsOrdered s (tpm_done c live) log o = tpm-IsOrdered s log o c live
step-IsOrdered s (payload_done c) log o = payload-IsOrdered s log o c
step-IsOrdered s (released c within_deadline) log o = release-IsOrdered s log o c within_deadline

run-IsOrdered :
    (s : ReleaseState) (log events : List Event)
    → IsOrdered s log
    → IsOrdered (run s log events).0 (run s log events).1
unfolding run
run-IsOrdered s log [] o = o
run-IsOrdered s log (e ∷ events) o =
    run-IsOrdered (step s e).0 (noted e (step s e).1 log) events (step-IsOrdered s e log o)

step_context :
    (s : ReleaseState) (e : Event)
    → ((step s e).0.context ≡ s.context) × ((step s e).0.require_live ≡ s.require_live)
unfolding step network tpm payload release
step_context s (network_done c) = ground arith
step_context s (tpm_done c live) = ground arith
step_context s (payload_done c) = ground arith
step_context s (released c within_deadline) = ground arith

run_context :
    (s : ReleaseState) (log events : List Event)
    → ((run s log events).0.context ≡ s.context)
      × ((run s log events).0.require_live ≡ s.require_live)
unfolding run
run_context s log [] = (refl, refl)
run_context s log (e ∷ events) =
    let (c, l) = run_context (step s e).0 (noted e (step s e).1 log) events in
    let (c', l') = step_context s e in (c ∙ c', l ∙ l')

live_test :
    (phase : ℕ) (required live : Bool)
    → (2 ≤ phase → required ≡ true → live ≡ true)
    → (ltb phase 2 || not required || live) ≡ true
live_test phase required live h = ground arith

-- Whatever evidence is offered to a new gate, in whatever order and for whatever contexts, the
-- events that it accepts are a prefix of: network, TPM, payload, release, each once, all for the
-- gate's own context, the release within its deadline, and the TPM's with live authorization where
-- the gate requires it.
pub run_in_order :
    (context : List ℕ) (require_live : Bool) (events : List Event)
    → (phase : ℕ) × (live : Bool) × (phase ≤ 4)
      × ((ltb phase 2 || not require_live || live) ≡ true)
      × ((run (new context require_live) [] events).1 ≡ evidence context live phase)
unfolding new
run_in_order context require_live events =
    let first : IsOrdered (new context require_live) [] = record {
      live = false;
      in_order = refl;
      live_shown = λ late. absurd (omega arith);
      bounded = omega arith;
    } in
    let o = run-IsOrdered (new context require_live) [] events first in
    let (c, l) = run_context (new context require_live) [] events in
    (
      (run (new context require_live) [] events).0.phase,
      o.live,
      o.bounded,
      live_test _ require_live o.live λ late required. o.live_shown late (l ∙ required),
      o.in_order ∙ ap (λ x. evidence x o.live (run (new context require_live) [] events).0.phase) c,
    )

advance_open :
    (s : ReleaseState) (expected : ℕ) (live : Bool)
    → s.phase ≡ expected
    → (expected ≡ 1 → s.require_live ≡ true → live ≡ true)
    → advance s s.context expected live ≡ (record s { phase = expected + 1 }, true)
unfolding advance
advance_open s expected live e h = ground (arith, bytes_eq_refl s.context)

-- Evidence that is complete and in order opens a new gate: all four events are accepted, if the
-- TPM's shows live authorization where the gate requires it.
pub run_complete :
    (context : List ℕ) (require_live live : Bool)
    → (require_live ≡ true → live ≡ true)
    → (run (new context require_live) [] (
        network_done context
        ∷ tpm_done context live
        ∷ payload_done context
        ∷ released context true
        ∷ [])).1
      ≡ evidence context live 4
unfolding run new network tpm payload release
run_complete context require_live live h =
    rw
      (advance_open (record { context = context; phase = 0; require_live = require_live }) 0 false
        refl (λ e. ground arith))
      (rw
        (advance_open (record { context = context; phase = 1; require_live = require_live }) 1 live
          refl (λ _. h))
        (rw
          (advance_open (record { context = context; phase = 2; require_live = require_live }) 2
            false refl (λ e. ground arith))
          (rw (
            advance_open (record { context = context; phase = 3; require_live = require_live }) 3
              false refl (λ e. ground arith)))))
