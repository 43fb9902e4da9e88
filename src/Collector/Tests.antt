-- ===== src/Collector/Tests.antt =====
-- Concrete runs of the reconciliation of crates/leelo-collector/src/reconcile.rs.
use leelo.Base.{
  ℕ, ◌+◌, ◌≤◌, ◌<◌, ◌≡◌, ◌↔◌, refl, List, [], ◌∷◌, Bool, true, false, Option, none, some, length,
  All, replicate, Result, ok, err, bytes_eq, if◌then◌else◌, codes,
}
use leelo.Collector.Types.{
  ExpectedBoot, BootObservation, BootOutcome, Inventory, Observations, Enrollment, FileIdentity,
  Error, IdentityRecord, BundleRecord, success, failure, open_failed,
}
use leelo.Collector.Boots.{
  boot_state, matching, latest_from, later, conflicts, disagrees, classify, check_boots, reference,
  any_invalid, fresh, count_states, count_state,
}
use leelo.Collector.Boots.Latest.{Proves}
use leelo.Collector.Boots.Success.{boot_state_iff}
use leelo.Collector.Boots.Names.{IsValidBoot, DistinctNames, check_boots_iff}
use leelo.Collector.Journal.Hex.{lower_hex, hex, read_pairs, to_digit, lower_hex_iff}
use leelo.Collector.Journal.{
  journal_committed, check_lines, split_lines, check_line, observe_identity, check_bundle,
  journal_identity, without_dashes,
}
use leelo.Collector.Journal.Lines.{join_lines}
use leelo.Collector.Journal.Complete.{IsCommitted, journal_committed_iff}
use leelo.Collector.Enrollments.{
  has_journal, split_path, named_pieces, first_piece, same_pieces, Tally, empty_tally, enroll_all,
  enroll, journal_state, settle, count_unknown, older,
}
use leelo.Collector.Enrollments.Accounts.{
  IsLeast, created_with, created_unresolved, pending, awaiting, unknown, enroll_all_lem,
}
use leelo.Collector.Files.{OpenFile, read_held}
use leelo.Collector.Render.{Report, reconcile, has_valid_schema}
use leelo.Collector.Render.Bounds.{sum, reconcile_bounds}

abbrev expected : ExpectedBoot
expected = record {
  target = codes "critical_service";
  boot_id = codes "boot_new";
  requested_at_ms = 1000;
  deadline_ms = 9000;
}

abbrev seen : ℕ → BootOutcome → BootObservation
seen time outcome = record {
  target = codes "critical_service";
  boot_id = codes "boot_new";
  observed_at_ms = time;
  outcome = outcome;
}

-- A failure before the success, and one of the same time as the success.
after_failure : boot_state true true expected (seen 4000 failure ∷ seen 5000 success ∷ []) 10000 ≡ 0
unfolding boot_state classify matching bytes_eq conflicts disagrees latest_from later
after_failure = refl

with_failure : boot_state true true expected (seen 5000 failure ∷ seen 5000 success ∷ []) 10000 ≡ 4
unfolding boot_state classify matching bytes_eq conflicts disagrees latest_from later
with_failure = refl

too_late : boot_state true true expected (seen 9001 success ∷ []) 10000 ≡ 5
unfolding boot_state classify matching bytes_eq conflicts disagrees latest_from later
too_late = refl

from_before : boot_state true true expected (seen 999 success ∷ []) 9000 ≡ 2
unfolding boot_state classify matching bytes_eq conflicts disagrees latest_from later
from_before = refl

boot_state_iff_example : (boot_state true true expected (seen 5000 success ∷ []) 10000 ≡ 0) ↔ (
    (true ≡ true)
    × (true ≡ true)
    × ((v : BootObservation) × Proves expected (seen 5000 success ∷ []) v))
boot_state_iff_example = boot_state_iff true true expected (seen 5000 success ∷ []) 10000

-- The same boot twice is refused.
repeated : check_boots 10000 [] (expected ∷ expected ∷ []) ≡ false
unfolding check_boots reference bytes_eq
repeated = refl

check_boots_iff_example :
    (check_boots 10000 [] (expected ∷ []) ≡ true)
    ↔ (All (IsValidBoot 10000) (expected ∷ []) × DistinctNames (expected ∷ []))
check_boots_iff_example = check_boots_iff 10000 (expected ∷ [])

lower_hex_iff_example : (lower_hex 2 (codes "0aff") ≡ some (10 ∷ 255 ∷ [])) ↔ (
    (length {A = ℕ} (10 ∷ 255 ∷ []) ≡ 2)
    × All (λ b. b < 256) (10 ∷ 255 ∷ [])
    × (codes "0aff" ≡ hex (10 ∷ 255 ∷ [])))
lower_hex_iff_example = lower_hex_iff 2 (codes "0aff") (10 ∷ 255 ∷ [])

-- Toy records: the first byte of a line is its number.
abbrev identity_in : List ℕ → IdentityRecord
identity_in phase = record {
  phase = phase;
  binding_id = hex (replicate 32 7);
  volume_uuid = codes "01020304-0506-0708-090a-0b0c0d0e0f10";
  slot = 3;
}

abbrev parse_identity : List ℕ → Option IdentityRecord
parse_identity line =
    if bytes_eq line (codes "1")
    then some (identity_in (codes "preflight"))
    else if bytes_eq line (codes "3")
    then some (identity_in (codes "prepared-and-recovery-tested"))
    else if bytes_eq line (codes "4")
    then some (identity_in (codes "token-written-and-slot-tested"))
    else none

abbrev parse_bundle : List ℕ → Option BundleRecord
parse_bundle line = some (record {
  phase = codes "pending-bundle-durable";
  path = codes "/b";
  sha384 = hex (replicate 48 1);
})

abbrev journal : List ℕ
journal = join_lines (codes "1" ∷ codes "2" ∷ codes "3" ∷ codes "4" ∷ [])

committed : journal_committed parse_identity parse_bundle journal ≡ some true
unfolding journal_committed check_lines split_lines check_line observe_identity check_bundle
    bytes_eq journal_identity without_dashes lower_hex read_pairs to_digit
committed = refl

-- Without its last record it is not committed, and out of order it is no journal.
unfinished :
    journal_committed parse_identity parse_bundle
      (join_lines (codes "1" ∷ codes "2" ∷ codes "3" ∷ []))
    ≡ some false
unfolding journal_committed check_lines split_lines check_line observe_identity check_bundle
    bytes_eq journal_identity without_dashes lower_hex read_pairs to_digit
unfinished = refl

out_of_order :
    journal_committed parse_identity parse_bundle (join_lines (codes "3" ∷ codes "2" ∷ [])) ≡ none
unfolding journal_committed check_lines split_lines check_line observe_identity check_bundle
    bytes_eq journal_identity without_dashes lower_hex read_pairs to_digit
out_of_order = refl

journal_committed_iff_example :
    (journal_committed parse_identity parse_bundle journal ≡ some true)
    ↔ IsCommitted parse_identity parse_bundle journal
journal_committed_iff_example = journal_committed_iff parse_identity parse_bundle journal

abbrev enrollment : List ℕ → ℕ → Bool → Enrollment
enrollment path created passed = record {
  journal = path;
  created_at_ms = created;
  production_boot_test_passed = passed;
}

-- One journal is committed, one is not, and the others do not open.
abbrev read_journal : List ℕ → Result Error (List ℕ × FileIdentity)
read_journal path =
    if bytes_eq path (codes "a")
    then ok (journal, record { device = 1; inode = 1 })
    else if bytes_eq path (codes "b")
    then ok (join_lines (codes "1" ∷ []), record { device = 1; inode = 2 })
    else err open_failed

abbrev enrollments : List Enrollment
enrollments =
    enrollment (codes "a") 50 false
    ∷ enrollment (codes "b") 40 false
    ∷ enrollment (codes "c") 60 true
    ∷ []

abbrev says : List ℕ → Option Bool
says bytes = journal_committed parse_identity parse_bundle bytes

abbrev tally : Tally
tally = record {
  pending = 1;
  unknown = 1;
  awaiting_boot_test = 1;
  oldest = some 40;
  oldest_pending = some 40;
  oldest_awaiting = some 50;
  oldest_unknown = some 60;
  journals = codes "c" ∷ codes "b" ∷ codes "a" ∷ [];
  journal_files = record { device = 1; inode = 2 } ∷ record { device = 1; inode = 1 } ∷ [];
}

tallied : enroll_all read_journal says 100 100 true enrollments empty_tally ≡ ok tally
unfolding enroll_all enroll split_path named_pieces first_piece same_pieces journal_state settle
    count_unknown older journal_committed check_lines split_lines check_line observe_identity
    check_bundle bytes_eq journal_identity without_dashes lower_hex read_pairs to_digit
tallied = refl

-- Two spellings of one path, and a path and its relative twin.
respelled : has_journal (codes "/v//b/./j/") (codes "/v/b/j" ∷ []) ≡ true
unfolding split_path named_pieces first_piece same_pieces bytes_eq
respelled = refl

relative : has_journal (codes "v/j") (codes "/v/j" ∷ codes "./v/j" ∷ []) ≡ false
unfolding split_path named_pieces first_piece same_pieces bytes_eq
relative = refl

enroll_all_lem_example :
    (1 ≡ length (created_with read_journal says true pending enrollments))
    × (1 ≡ length (created_with read_journal says true awaiting enrollments))
    × (1 ≡ length (created_with read_journal says true unknown enrollments))
    × IsLeast (some 40) (created_with read_journal says true pending enrollments)
    × IsLeast (some 50) (created_with read_journal says true awaiting enrollments)
    × IsLeast (some 60) (created_with read_journal says true unknown enrollments)
    × IsLeast (some 40) (created_unresolved read_journal says true enrollments)
enroll_all_lem_example = enroll_all_lem read_journal says 100 100 true enrollments tally tallied

abbrev inventory : Inventory
inventory = record {
  schema_version = 1;
  updated_at_ms = 10000;
  valid_for_seconds = 30;
  boots = expected ∷ [];
  enrollments = enrollment (codes "c") 60 true ∷ [];
}

abbrev observations : Observations
observations = record { schema_version = 1; updated_at_ms = 10000; boots = seen 5000 success ∷ [] }

abbrev no_file : List ℕ → Option OpenFile
no_file path = none

abbrev report : Report
report = record {
  states = 1 ∷ 0 ∷ 0 ∷ 0 ∷ 0 ∷ 0 ∷ [];
  inventory_fresh = true;
  observations_fresh = true;
  tally = record {
    pending = 0;
    unknown = 1;
    awaiting_boot_test = 0;
    oldest = some 60;
    oldest_pending = none;
    oldest_awaiting = none;
    oldest_unknown = some 60;
    journals = codes "c" ∷ [];
    journal_files = [];
  };
}

reported : reconcile no_file 0 parse_identity parse_bundle inventory observations 20000 ≡ ok report
unfolding reconcile has_valid_schema check_boots reference any_invalid enroll_all enroll split_path
    named_pieces first_piece same_pieces fresh journal_state read_held count_states settle
    count_state count_unknown boot_state older classify matching bytes_eq conflicts disagrees later
    latest_from
reported = refl

reconcile_bounds_example :
    (length report.states ≡ 6)
    × (sum report.states ≡ 1)
    × (1 ≤ 1024)
    × (report.tally.pending + report.tally.awaiting_boot_test + report.tally.unknown ≤ 1)
    × (1 ≤ 1024)
reconcile_bounds_example =
    reconcile_bounds no_file 0 parse_identity parse_bundle inventory observations 20000 report
      reported
