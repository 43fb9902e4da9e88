-- ===== src/Collector/Types.antt =====
-- The collector's inventory, observations and journal records, as
-- crates/leelo-collector/src/reconcile.rs declares them. Texts and paths are their bytes.
use leelo.Base.{ℕ, List, Bool, true, false}

abbrev pub input_limit : ℕ
input_limit = 1048576

abbrev pub journal_limit : ℕ
journal_limit = 65536

abbrev pub target_limit : ℕ
target_limit = 1024

pub record ExpectedBoot : Type 0 where
  pub target : List ℕ
  pub boot_id : List ℕ
  pub requested_at_ms : ℕ
  pub deadline_ms : ℕ

pub record Enrollment : Type 0 where
  pub journal : List ℕ
  pub created_at_ms : ℕ
  pub production_boot_test_passed : Bool

pub record Inventory : Type 0 where
  pub schema_version : ℕ
  pub updated_at_ms : ℕ
  pub valid_for_seconds : ℕ
  pub boots : List ExpectedBoot
  pub enrollments : List Enrollment

pub data BootOutcome : Type 0 where
  success failure : BootOutcome

abbrev pub is_success : BootOutcome → Bool
is_success success = true
is_success failure = false

pub record BootObservation : Type 0 where
  pub target : List ℕ
  pub boot_id : List ℕ
  pub observed_at_ms : ℕ
  pub outcome : BootOutcome

pub record Observations : Type 0 where
  pub schema_version : ℕ
  pub updated_at_ms : ℕ
  pub boots : List BootObservation

pub record FileIdentity : Type 0 where
  pub device : ℕ
  pub inode : ℕ

pub record IdentityRecord : Type 0 where
  pub phase : List ℕ
  pub binding_id : List ℕ
  pub volume_uuid : List ℕ
  pub slot : ℕ

pub record BundleRecord : Type 0 where
  pub phase : List ℕ
  pub path : List ℕ
  pub sha384 : List ℕ

-- The messages of the source, and the failures of what it calls.
pub data Error : Type 0 where
  open_failed untrusted_file unsupported_filesystem read_failed input_exceeds_bound : Error
  invalid_json clock_unavailable : Error
  invalid_schema_or_limit invalid_expected_boot invalid_boot_observation : Error
  invalid_enrollment_inventory duplicate_journal_file : Error
