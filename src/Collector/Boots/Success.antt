-- ===== src/Collector/Boots/Success.antt =====
-- When crates/leelo-collector/src/reconcile.rs counts an expected boot as a success.
use leelo.Base.{
  ℕ, ◌≤◌, ◌≡◌, ◌↔◌, inl, inr, refl, ◌∙◌, subst, List, Bool, true, false, none, some, Option-cases,
  arith,
}
use leelo.Collector.Types.{ExpectedBoot, BootObservation, BootOutcome, success, failure, is_success}
use leelo.Collector.Boots.{is_same, matching, latest, conflicts, classify, boot_state}
use leelo.Collector.Boots.Latest.{
  Answers, Proves, is_of-Answers, matching_sound, matching_complete, conflicts-false, latest_law,
  latest-some,
}

classify-some :
    (e : ExpectedBoot) (values : List BootObservation) (now : ℕ) (last : BootObservation)
    → (classify e values now (some last) ≡ 0) ↔ (
        (conflicts e last values ≡ false)
        × (is_success last.outcome ≡ true)
        × (last.observed_at_ms ≤ e.deadline_ms))
unfolding classify
classify-some e values now last = (λ h. ground arith, λ h. ground arith)

classify-none :
    (e : ExpectedBoot) (values : List BootObservation) (now : ℕ)
    → ¬ (classify e values now none ≡ 0)
unfolding classify
classify-none e values now h = ground arith

is_success-success : (o : BootOutcome) → (is_success o ≡ true) ↔ (o ≡ success)
is_success-success success = (λ h. refl, λ h. refl)
is_success-success failure = (λ h. cc, λ h. cc)

is_same-success : (o : BootOutcome) → is_same o success ≡ true → o ≡ success
is_same-success success h = refl
is_same-success failure h = cc

le_antisym : {a b : ℕ} → a ≤ b → b ≤ a → a ≡ b
le_antisym h k = omega arith

at_least : {a b c : ℕ} → a ≤ b → c ≡ b → a ≤ c
at_least h k = omega arith

at_most : {a b c : ℕ} → a ≤ c → b ≡ a → b ≤ c
at_most h k = omega arith

latest-Proves :
    (e : ExpectedBoot) (values : List BootObservation) (now : ℕ) (r : BootObservation)
    → latest (matching e values) ≡ some r
    → classify e values now (some r) ≡ 0
    → Proves e values r
latest-Proves e values now r found c =
    let (agree, fine, in_time) = (classify-some e values now r).0 c in
    let (inside, above) = latest_law (matching e values) r found in
    let (observed, fits) = matching_sound e values r inside in
    let succeeded = (is_success-success r.outcome).0 fine in
    record {
      observed = observed;
      answers = (is_of-Answers e r).0 fits;
      succeeded = succeeded;
      in_time = in_time;
      last = λ w m a. (
        above w (matching_complete e values w m ((is_of-Answers e w).1 a)),
        λ same. is_same-success w.outcome (
            subst (λ x. is_same w.outcome x ≡ true) succeeded
              ((conflicts-false e r values).0 agree w m a.0 a.1 same)),
      );
    }

proved_success :
    (e : ExpectedBoot) (values : List BootObservation) (now : ℕ) (v : BootObservation)
    → Proves e values v
    → classify e values now (latest (matching e values)) ≡ 0
proved_success e values now v p =
    let inside = matching_complete e values v p.observed ((is_of-Answers e v).1 p.answers) in
    let (r, found) = latest-some (matching e values) v inside in
    let (r_inside, above) = latest_law (matching e values) r found in
    let (r_observed, r_fits) = matching_sound e values r r_inside in
    let r_answers = (is_of-Answers e r).0 r_fits in
    let same = le_antisym (p.last r r_observed r_answers).0 (above v inside) in
    let r_success = (p.last r r_observed r_answers).1 same in
    rw found (
      (classify-some e values now r).1 (
        (conflicts-false e r values).1 (λ w m t b s.
            let a : Answers e w = (t, b, at_least r_answers.2 s) in
            rw ((p.last w m a).1 (s ∙ same), r_success) refl),
        (is_success-success r.outcome).1 r_success,
        at_most p.in_time same,
      ))

boot_state_fresh :
    (i o : Bool) (e : ExpectedBoot) (values : List BootObservation) (now : ℕ)
    → boot_state i o e values now ≡ 0
    → (i ≡ true) × (o ≡ true) × (classify e values now (latest (matching e values)) ≡ 0)
unfolding boot_state
boot_state_fresh true true e values now h = (refl, refl, h)
boot_state_fresh true false e values now h = absurd (omega (arith, h))
boot_state_fresh false o e values now h = absurd (omega (arith, h))

-- A boot counts as a success (state 0) exactly when both files are fresh and some observation
-- of the boot, from after its request, proves it: it succeeded within the deadline, no other
-- observation of the boot is later, and none of the same time failed.
pub boot_state_iff :
    (inventory_fresh observations_fresh : Bool) (e : ExpectedBoot) (values : List BootObservation)
    (now : ℕ)
    → (boot_state inventory_fresh observations_fresh e values now ≡ 0) ↔ (
        (inventory_fresh ≡ true)
        × (observations_fresh ≡ true)
        × ((v : BootObservation) × Proves e values v))
unfolding boot_state
boot_state_iff i o e values now = (
  λ h.
      let (fi, fo, c) = boot_state_fresh i o e values now h in
      elim (Option-cases (latest (matching e values))) [
        | inl nothing ↦
            absurd (classify-none e values now (subst (λ x. classify e values now x ≡ 0) nothing c))
        | inr (r, found) ↦ (
          fi,
          fo,
          (
            r,
            latest-Proves e values now r found (subst (λ x. classify e values now x ≡ 0) found c),
          ),
        )
      ],
  λ (fi, fo, (v, p)). rw (fi, fo) (proved_success e values now v p),
)
