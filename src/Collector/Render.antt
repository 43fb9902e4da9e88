-- ===== src/Collector/Render.antt =====
-- `render` and `run` of crates/leelo-collector/src/reconcile.rs: the checks, the report, and its
-- text. Parameters: the files and this user, the JSON decoders, the clock, and how the standard
-- library prints a number of milliseconds as seconds in floating point.
pub mod Bounds
use leelo.Base.{
  is_within, ℕ, zero, suc, ◌+◌, ◌*◌, ◌/◌, ◌%◌, List, [], ◌∷◌, ◌++◌, Bool, true, false, not, ◌&&◌,
  ◌||◌, Option, none, some, ltb, leb, ◌==◌, if◌then◌else◌, length, Result, ok, err, ◌>>=◌, ◌>>◌,
  guard, codes,
}
use leelo.Collector.Types.{
  Error, Inventory, Observations, ExpectedBoot, Enrollment, IdentityRecord, BundleRecord,
  input_limit, journal_limit, target_limit, invalid_json, clock_unavailable,
  invalid_schema_or_limit, invalid_expected_boot, invalid_boot_observation,
}
use leelo.Collector.Boots.{fresh, check_boots, any_invalid, count_states}
use leelo.Collector.Files.{OpenFile, read_held, or_error}
use leelo.Collector.Enrollments.{Tally, empty_tally, enroll_all}
use leelo.Collector.Journal.{journal_committed}

pub record Report : Type 0 where
  pub states : List ℕ
  pub inventory_fresh : Bool
  pub observations_fresh : Bool
  pub tally : Tally

abbrev pub no_states : List ℕ
no_states = 0 ∷ 0 ∷ 0 ∷ 0 ∷ 0 ∷ 0 ∷ []

unfoldable pub has_valid_schema : Inventory → Observations → Bool
has_valid_schema inventory observations =
    inventory.schema_version == 1
    && observations.schema_version == 1
    && is_within 1 86400 inventory.valid_for_seconds
    && not (ltb target_limit (length inventory.boots))
    && not (ltb target_limit (length inventory.enrollments))
    && not (ltb (target_limit * 4) (length observations.boots))

-- The decimal digits of a number below 10 ^ `digits`.
unfoldable pub decimal_digits : ℕ → ℕ → List ℕ
decimal_digits zero n = []
decimal_digits (suc digits) n =
    let before = decimal_digits digits (n / 10) in
    if ltb n 10 then (n + 48) ∷ [] else before ++ (n % 10 + 48) ∷ []

-- A number below 2 ^ 64 has at most 20 digits.
abbrev pub decimal : ℕ → List ℕ
decimal n = decimal_digits 20 n

abbrev pub line_of : List ℕ → List ℕ → List ℕ
line_of name value = name ++ value ++ 10 ∷ []

unfoldable pub write_states : List (List ℕ) → List ℕ → List ℕ
write_states (name ∷ names) (count ∷ counts) =
    line_of (codes "leelo_boot_targets{state=\"" ++ name ++ codes "\"} ") (decimal count)
    ++ write_states names counts
write_states names counts = []

abbrev pub flag : Bool → List ℕ
flag true = codes "1"
flag false = codes "0"

abbrev pub or_zero : Option ℕ → ℕ
or_zero none = 0
or_zero (some t) = t

module _ (show_seconds : ℕ → List ℕ) where
  unfoldable pub write_report : ℕ → Report → List ℕ
  write_report now r =
      write_states
        (codes "success"
          ∷ codes "failure"
          ∷ codes "pending"
          ∷ codes "missing"
          ∷ codes "unknown"
          ∷ codes "late_success"
          ∷ [])
        r.states
      ++ line_of (codes "leelo_inventory_fresh ") (flag r.inventory_fresh)
      ++ line_of (codes "leelo_boot_observations_fresh ") (flag r.observations_fresh)
      ++ line_of (codes "leelo_reconciliation_snapshot_timestamp_seconds ") (show_seconds now)
      ++ line_of (codes "leelo_enrollments_requiring_reconciliation ") (decimal r.tally.pending)
      ++ line_of (codes "leelo_enrollments_unknown ") (decimal r.tally.unknown)
      ++ line_of (codes "leelo_enrollments_awaiting_boot_test ")
          (decimal r.tally.awaiting_boot_test)
      ++ line_of (codes "leelo_oldest_unresolved_enrollment_timestamp_seconds ")
          (show_seconds (or_zero r.tally.oldest))
      ++ line_of (codes "leelo_oldest_enrollment_requiring_reconciliation_timestamp_seconds ")
          (show_seconds (or_zero r.tally.oldest_pending))
      ++ line_of (codes "leelo_oldest_enrollment_awaiting_boot_test_timestamp_seconds ")
          (show_seconds (or_zero r.tally.oldest_awaiting))
      ++ line_of (codes "leelo_oldest_unknown_enrollment_timestamp_seconds ")
          (show_seconds (or_zero r.tally.oldest_unknown))

module _ (open_file : List ℕ → Option OpenFile) (euid : ℕ)
    (parse_identity : List ℕ → Option IdentityRecord)
    (parse_bundle : List ℕ → Option BundleRecord) where
  -- What `render` counts before it writes the report.
  unfoldable pub reconcile : Inventory → Observations → ℕ → Result Error Report
  reconcile inventory observations now =
      let inventory_fresh = fresh inventory.updated_at_ms now inventory.valid_for_seconds in
      let observations_fresh = fresh observations.updated_at_ms now inventory.valid_for_seconds in
      guard (has_valid_schema inventory observations) invalid_schema_or_limit
      >> guard (check_boots inventory.updated_at_ms [] inventory.boots) invalid_expected_boot
      >> guard (not (any_invalid observations.updated_at_ms observations.boots))
          invalid_boot_observation
      >> enroll_all (λ path. read_held open_file euid path journal_limit)
          (journal_committed parse_identity parse_bundle) inventory.updated_at_ms now
          inventory_fresh inventory.enrollments empty_tally
      >>= λ tally. ok (record {
        states =
            count_states inventory_fresh observations_fresh inventory.boots observations.boots now
              no_states;
        inventory_fresh = inventory_fresh;
        observations_fresh = observations_fresh;
        tally = tally;
      })

  unfoldable pub render : (ℕ → List ℕ) → Inventory → Observations → ℕ → Result Error (List ℕ)
  render show_seconds inventory observations now =
      reconcile inventory observations now >>= λ report. ok (write_report show_seconds now report)

  unfoldable pub read_bounded : List ℕ → Result Error (List ℕ)
  read_bounded path = read_held open_file euid path input_limit >>= λ (bytes, identity). ok bytes

  -- The text that `run` writes to its output.
  unfoldable pub run :
      (ℕ → List ℕ)
      → (List ℕ → Option Inventory)
      → (List ℕ → Option Observations)
      → Option ℕ
      → List ℕ
      → List ℕ
      → Result Error (List ℕ)
  run show_seconds parse_inventory parse_observations clock inventory_path observations_path = do
    inventory_bytes ← read_bounded inventory_path
    inventory ← or_error invalid_json (parse_inventory inventory_bytes)
    observations_bytes ← read_bounded observations_path
    observations ← or_error invalid_json (parse_observations observations_bytes)
    now ← or_error clock_unavailable clock
    render show_seconds inventory observations now
