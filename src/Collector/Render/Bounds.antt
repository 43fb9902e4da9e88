-- ===== src/Collector/Render/Bounds.antt =====
-- The numbers that a report of crates/leelo-collector/src/reconcile.rs can show.
use leelo.Base.{
  ℕ, zero, suc, ◌+◌, ◌≤◌, ◌<◌, ◌≡◌, refl, ap, subst, List, [], ◌∷◌, length, length-append, Bool,
  true, false, Option, none, some, Result, ok, err, ◌>>◌, >>=-eq-ok, guard, ok_injective, arith,
}
use leelo.Collector.Types.{
  Error, FileIdentity, Inventory, Observations, ExpectedBoot, BootObservation, Enrollment,
  IdentityRecord, BundleRecord, journal_limit,
}
use leelo.Collector.Boots.{fresh, boot_state, classify, count_state, count_states}
use leelo.Collector.Files.{OpenFile, read_held}
use leelo.Collector.Journal.{journal_committed}
use leelo.Collector.Enrollments.Accounts.{
  Status, status_of, created_with, enroll_all_lem, only_if, is_status, pending, awaiting, unknown,
  done,
}
use leelo.Collector.Render.{Report, no_states, has_valid_schema, reconcile}

abbrev pub sum : List ℕ → ℕ
sum [] = 0
sum (n ∷ ns) = n + sum ns

classify-lt :
    (e : ExpectedBoot) (values : List BootObservation) (now : ℕ) (last : Option BootObservation)
    → classify e values now last < 6
unfolding classify
classify-lt e values now none = ground arith
classify-lt e values now (some last) = ground arith

boot_state-lt :
    (i o : Bool) (e : ExpectedBoot) (values : List BootObservation) (now : ℕ)
    → boot_state i o e values now < 6
unfolding boot_state
boot_state-lt true true e values now = classify-lt e values now _
boot_state-lt true false e values now = omega arith
boot_state-lt false o e values now = omega arith

-- One state's count goes up by one.
count_state_law :
    (states : List ℕ) (state : ℕ)
    → state < length states
    → (sum (count_state states state) ≡ suc (sum states))
      × (length (count_state states state) ≡ length states)
unfolding count_state
count_state_law [] state h = absurd (omega arith)
count_state_law (n ∷ ns) zero h = (omega arith, refl)
count_state_law (n ∷ ns) (suc state) h =
    let (s, l) = count_state_law ns state (omega arith) in (omega (arith, s), ap suc l)

count_states_law :
    (i o : Bool) (boots : List ExpectedBoot) (values : List BootObservation) (now : ℕ)
    (states : List ℕ)
    → length states ≡ 6
    → (sum (count_states i o boots values now states) ≡ sum states + length boots)
      × (length (count_states i o boots values now states) ≡ 6)
unfolding count_states
count_states_law i o [] values now states six = (omega arith, six)
count_states_law i o (e ∷ boots) values now states six =
    let state = boot_state i o e values now in
    let (s, l) =
      count_state_law states state (omega (arith, boot_state-lt i o e values now, six)) in
    let (total, six') =
      count_states_law i o boots values now (count_state states state) (omega (arith, l, six)) in
    (omega (arith, total, s), six')

one_status :
    (s : Status) (t : ℕ)
    → length (only_if (is_status pending s) t)
        + length (only_if (is_status awaiting s) t)
        + length (only_if (is_status unknown s) t)
      ≤ 1
one_status done t = omega arith
one_status pending t = omega arith
one_status awaiting t = omega arith
one_status unknown t = omega arith

module _ (reader : List ℕ → Result Error (List ℕ × FileIdentity))
    (committed : List ℕ → Option Bool) where
  enrollments_counted :
      (fresh : Bool) (es : List Enrollment)
      → length (created_with reader committed fresh pending es)
          + length (created_with reader committed fresh awaiting es)
          + length (created_with reader committed fresh unknown es)
        ≤ length es
  enrollments_counted fresh [] = omega arith
  enrollments_counted fresh (e ∷ es) =
      let s = status_of reader committed fresh e in
      omega (
        arith,
        one_status s e.created_at_ms,
        enrollments_counted fresh es,
        length-append (only_if (is_status pending s) e.created_at_ms)
            (created_with reader committed fresh pending es),
        length-append (only_if (is_status awaiting s) e.created_at_ms)
            (created_with reader committed fresh awaiting es),
        length-append (only_if (is_status unknown s) e.created_at_ms)
            (created_with reader committed fresh unknown es),
      )

then-ok {κ} :
    {B : Type κ} (m : Result Error (Unit {0})) (k : Result Error B) {v : B}
    → (m >> k) ≡ ok v
    → (m ≡ ok tt) × (k ≡ ok v)
then-ok (ok tt) k h = (refl, h)
then-ok (err e) k h = cc

guard-ok : (b : Bool) (e : Error) → guard b e ≡ ok tt → b ≡ true
guard-ok true e h = refl
guard-ok false e h = cc

schema_limits :
    (inventory : Inventory) (observations : Observations)
    → has_valid_schema inventory observations ≡ true
    → (length inventory.boots ≤ 1024) × (length inventory.enrollments ≤ 1024)
unfolding has_valid_schema
schema_limits inventory observations h = (ground arith, ground arith)

module _ (open_file : List ℕ → Option OpenFile) (euid : ℕ)
    (parse_identity : List ℕ → Option IdentityRecord)
    (parse_bundle : List ℕ → Option BundleRecord) where
  -- When a report is made, the six counts of boots add up to the expected boots, of which there are
  -- at most 1024, and the counts of unresolved enrollments to no more than the enrollments, of which
  -- there are at most 1024 too.
  pub reconcile_bounds :
      (inventory : Inventory) (observations : Observations) (now : ℕ) (r : Report)
      → reconcile open_file euid parse_identity parse_bundle inventory observations now ≡ ok r
      → (length r.states ≡ 6)
        × (sum r.states ≡ length inventory.boots)
        × (length inventory.boots ≤ 1024)
        × (r.tally.pending + r.tally.awaiting_boot_test + r.tally.unknown
            ≤ length inventory.enrollments)
        × (length inventory.enrollments ≤ 1024)
  unfolding reconcile
  reconcile_bounds inventory observations now r h =
      let reader = λ (path : List ℕ). read_held open_file euid path journal_limit in
      let committed = journal_committed parse_identity parse_bundle in
      let is_fresh = fresh inventory.updated_at_ms now inventory.valid_for_seconds in
      let (tally, run, made) = >>=-eq-ok _ _ h in
      let (checks, enrolled) = then-ok _ _ run in
      let (earlier, _) = then-ok _ _ checks in
      let (schema, _) = then-ok _ _ earlier in
      let (few_boots, few_enrollments) =
        schema_limits inventory observations (guard-ok _ _ schema) in
      let (total, six) =
        count_states_law is_fresh (fresh observations.updated_at_ms now inventory.valid_for_seconds)
          inventory.boots observations.boots now no_states refl in
      let (a, b, c, _, _, _, _) =
        enroll_all_lem reader committed inventory.updated_at_ms now is_fresh inventory.enrollments
          tally enrolled in
      let few = enrollments_counted reader committed is_fresh inventory.enrollments in
      subst
        (λ (x : Report).
          (length x.states ≡ 6)
          × (sum x.states ≡ length inventory.boots)
          × (length inventory.boots ≤ 1024)
          × (x.tally.pending + x.tally.awaiting_boot_test + x.tally.unknown
              ≤ length inventory.enrollments)
          × (length inventory.enrollments ≤ 1024))
        (ok_injective made)
        (six, omega (arith, total), few_boots, omega (arith, a, b, c, few), few_enrollments)
