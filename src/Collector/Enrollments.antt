-- ===== src/Collector/Enrollments.antt =====
-- The enrollments of the inventory in crates/leelo-collector/src/reconcile.rs: which are pending,
-- unknown or waiting for a boot test, and since when. Parameters: `read_journal` is `read_held` with
-- the limit of journals, and `journal_committed` what Collector/Journal defines.
pub mod Accounts
use leelo.Base.{
  length, codes, ℕ, suc, List, [], ◌∷◌, Bool, true, false, not, ◌&&◌, ◌||◌, Option, none, some, ltb,
  leb, ◌==◌, if◌then◌else◌, Result, ok, err, ◌>>=◌, bytes_eq,
}
use leelo.Collector.Types.{
  Error, Enrollment, FileIdentity, invalid_enrollment_inventory, duplicate_journal_file,
}

pub record Tally : Type 0 where
  pub pending : ℕ
  pub unknown : ℕ
  pub awaiting_boot_test : ℕ
  pub oldest : Option ℕ
  pub oldest_pending : Option ℕ
  pub oldest_awaiting : Option ℕ
  pub oldest_unknown : Option ℕ
  pub journals : List (List ℕ)
  pub journal_files : List FileIdentity

abbrev pub empty_tally : Tally
empty_tally = record {
  pending = 0;
  unknown = 0;
  awaiting_boot_test = 0;
  oldest = none;
  oldest_pending = none;
  oldest_awaiting = none;
  oldest_unknown = none;
  journals = [];
  journal_files = [];
}

abbrev pub min : ℕ → ℕ → ℕ
min a b = if leb a b then a else b

unfoldable pub older : Option ℕ → ℕ → Option ℕ
older none timestamp = some timestamp
older (some previous) timestamp = some (min previous timestamp)

abbrev pub put_front : ℕ → List (List ℕ) → List (List ℕ)
put_front b [] = (b ∷ []) ∷ []
put_front b (piece ∷ pieces) = (b ∷ piece) ∷ pieces

-- The pieces of a path between its slashes; there is always one.
unfoldable pub split_path : List ℕ → List (List ℕ)
split_path [] = [] ∷ []
split_path (b ∷ bs) = let rest = split_path bs in if b == 47 then [] ∷ rest else put_front b rest

-- `Path::components` after the first piece: empty pieces and single dots name nothing.
unfoldable pub named_pieces : List (List ℕ) → List (List ℕ)
named_pieces [] = []
named_pieces (piece ∷ pieces) =
    let rest = named_pieces pieces in
    if length piece == 0 || bytes_eq piece (codes ".") then rest else piece ∷ rest

-- A slash first is the root; a single dot first is kept.
unfoldable pub first_piece : List (List ℕ) → List (List ℕ)
first_piece [] = []
first_piece ([] ∷ []) = []
first_piece ([] ∷ piece ∷ pieces) = codes "/" ∷ named_pieces (piece ∷ pieces)
first_piece ((b ∷ bs) ∷ pieces) = (b ∷ bs) ∷ named_pieces pieces

-- A `PathBuf` is compared by its components.
abbrev pub path_components : List ℕ → List (List ℕ)
path_components path = first_piece (split_path path)

unfoldable pub same_pieces : List (List ℕ) → List (List ℕ) → Bool
same_pieces [] [] = true
same_pieces [] (q ∷ qs) = false
same_pieces (p ∷ ps) [] = false
same_pieces (p ∷ ps) (q ∷ qs) = bytes_eq p q && same_pieces ps qs

-- Whether the set has a path already; it keeps the paths.
abbrev pub has_journal : List ℕ → List (List ℕ) → Bool
has_journal journal [] = false
has_journal journal (j ∷ js) =
    same_pieces (path_components j) (path_components journal) || has_journal journal js

abbrev pub has_file : FileIdentity → List FileIdentity → Bool
has_file identity [] = false
has_file identity (f ∷ fs) =
    f.device == identity.device && f.inode == identity.inode || has_file identity fs

unfoldable pub count_unknown : ℕ → Tally → Tally
count_unknown created t = record t {
  unknown = suc t.unknown;
  oldest_unknown = older t.oldest_unknown created;
  oldest = older t.oldest created;
}

-- By what the journal says, and whether the boot test passed.
unfoldable pub settle : Option Bool → Bool → ℕ → Tally → Tally
settle (some true) false created t = record t {
  awaiting_boot_test = suc t.awaiting_boot_test;
  oldest_awaiting = older t.oldest_awaiting created;
  oldest = older t.oldest created;
}
settle (some true) true created t = t
settle (some false) passed created t = record t {
  pending = suc t.pending;
  oldest_pending = older t.oldest_pending created;
  oldest = older t.oldest created;
}
settle none passed created t = count_unknown created t

module _ (read_journal : List ℕ → Result Error (List ℕ × FileIdentity))
    (journal_committed : List ℕ → Option Bool) where
  -- What reading the journal gives, and the files that are known then.
  unfoldable pub journal_state :
      Result Error (List ℕ × FileIdentity) → Tally → Result Error (Option Bool × Tally)
  journal_state (err e) t = ok (none, t)
  journal_state (ok (bytes, identity)) t =
      if has_file identity t.journal_files
      then err duplicate_journal_file
      else ok (journal_committed bytes, record t { journal_files = identity ∷ t.journal_files })

  unfoldable pub enroll : ℕ → ℕ → Bool → Enrollment → Tally → Result Error Tally
  enroll updated_at_ms now inventory_fresh e t =
      let known = record t { journals = e.journal ∷ t.journals } in
      if has_journal e.journal t.journals
        || ltb now e.created_at_ms
        || ltb updated_at_ms e.created_at_ms
      then err invalid_enrollment_inventory
      else if not inventory_fresh
      then ok (count_unknown e.created_at_ms known)
      else (journal_state (read_journal e.journal) known >>= λ (state, t').
          ok (settle state e.production_boot_test_passed e.created_at_ms t'))

  unfoldable pub enroll_all : ℕ → ℕ → Bool → List Enrollment → Tally → Result Error Tally
  enroll_all updated_at_ms now inventory_fresh [] t = ok t
  enroll_all updated_at_ms now inventory_fresh (e ∷ es) t =
      enroll updated_at_ms now inventory_fresh e t >>= λ t'.
      enroll_all updated_at_ms now inventory_fresh es t'
