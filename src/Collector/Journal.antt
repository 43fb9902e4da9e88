-- ===== src/Collector/Journal.antt =====
-- The journal of an enrollment as crates/leelo-collector/src/reconcile.rs reads it: hexadecimal
-- fields, the identity in a record, and the sequence of records. The JSON decoders of the two kinds
-- of record are parameters, `parse_identity` and `parse_bundle`.
pub mod Hex
pub mod Lines
pub mod Steps
pub mod Four
pub mod Complete
use leelo.Base.{
  ℕ, zero, suc, ◌*◌, ◌+◌, ◌-◌, ◌%◌, List, [], ◌∷◌, Bool, true, false, not, ◌&&◌, ◌||◌, Option, none,
  some, ltb, leb, ◌==◌, if◌then◌else◌, length, get_elem?, get_last?, take, bytes_eq, replicate,
  codes,
}
use leelo.Collector.Types.{IdentityRecord, BundleRecord, journal_limit}
use leelo.Collector.Journal.Hex.{lower_hex}

infixl 5 ◌>>=◌ ◌>>◌
abbrev pub ◌>>=◌ {ℓ κ} : {A : Type ℓ} {B : Type κ} → Option A → (A → Option B) → Option B
none >>= f = none
some a >>= f = f a

abbrev pub ◌>>◌ {κ} : {B : Type κ} → Option (Unit {0}) → Option B → Option B
m >> k = m >>= λ _. k

abbrev pub require : Bool → Option (Unit {0})
require true = some tt
require false = none

abbrev pub Identity : Type 0
Identity = List ℕ × List ℕ × ℕ

abbrev pub is_byte_at : List ℕ → ℕ → ℕ → Bool
is_byte_at value byte i = elim (get_elem? value i) [ none ↦ false | some v ↦ v == byte ]

-- `replace('-', "")`
unfoldable pub without_dashes : List ℕ → List ℕ
without_dashes [] = []
without_dashes (b ∷ bs) = let rest = without_dashes bs in if b == 45 then rest else b ∷ rest

unfoldable pub journal_identity : IdentityRecord → Option Identity
journal_identity r = do
  binding ← lower_hex 32 r.binding_id
  require (
      length r.volume_uuid == 36
      && is_byte_at r.volume_uuid 45 8
      && is_byte_at r.volume_uuid 45 13
      && is_byte_at r.volume_uuid 45 18
      && is_byte_at r.volume_uuid 45 23)
  volume ← lower_hex 16 (without_dashes r.volume_uuid)
  require (
      not (bytes_eq binding (replicate 32 0))
      && not (bytes_eq volume (replicate 16 0))
      && not (leb 32 r.slot))
  some (binding, volume, r.slot)

abbrev pub is_identity : Identity → Identity → Bool
is_identity (b, v, s) (b', v', s') = bytes_eq b b' && bytes_eq v v' && s == s'

-- Whether an identity is known and differs.
abbrev pub is_other : Option Identity → Identity → Bool
is_other none observed = false
is_other (some previous) observed = not (is_identity previous observed)

abbrev pub phases : List (List ℕ)
phases =
    codes "preflight"
    ∷ codes "pending-bundle-durable"
    ∷ codes "prepared-and-recovery-tested"
    ∷ codes "token-written-and-slot-tested"
    ∷ []

-- The pieces between line breaks; there is always one.
abbrev pub add_front : ℕ → List (List ℕ) → List (List ℕ)
add_front b [] = (b ∷ []) ∷ []
add_front b (line ∷ lines) = (b ∷ line) ∷ lines

unfoldable pub split_lines : List ℕ → List (List ℕ)
split_lines [] = [] ∷ []
split_lines (b ∷ bs) = let rest = split_lines bs in if b == 10 then [] ∷ rest else add_front b rest

abbrev pub ends_with_break : List ℕ → Bool
ends_with_break bytes = elim (get_last? bytes) [ none ↦ false | some v ↦ v == 10 ]

module _ (parse_identity : List ℕ → Option IdentityRecord)
    (parse_bundle : List ℕ → Option BundleRecord) where
  unfoldable pub check_bundle : List ℕ → List ℕ → Option (Unit {0})
  check_bundle phase line = do
    r ← parse_bundle line
    require (bytes_eq r.phase phase && not (length r.path == 0))
    _ ← lower_hex 48 r.sha384
    some tt

  unfoldable pub observe_identity : List ℕ → Option Identity → List ℕ → Option Identity
  observe_identity phase identity line = do
    r ← parse_identity line
    require (bytes_eq r.phase phase)
    observed ← journal_identity r
    require (not (is_other identity observed)) >> some observed

  -- One line: the identity that is known after it.
  unfoldable pub check_line : ℕ → Option Identity → List ℕ → Option (Option Identity)
  check_line count identity line =
      if ltb 8192 (length line)
      then none
      else (get_elem? phases count >>= λ phase.
          if count == 1
          then check_bundle phase line >> some identity
          else (observe_identity phase identity line >>= λ observed. some (some observed)))

  unfoldable pub check_lines : ℕ → Option Identity → Bool → List (List ℕ) → Option Bool
  check_lines count identity committed [] = some committed
  check_lines count identity committed (line ∷ lines) =
      check_line count identity line >>= λ identity'.
      check_lines (suc count) identity' (count == length phases - 1) lines

  unfoldable pub journal_committed : List ℕ → Option Bool
  journal_committed bytes =
      if length bytes == 0 || not (ends_with_break bytes) || ltb journal_limit (length bytes)
      then none
      else check_lines 0 none false (split_lines (take (length bytes - 1) bytes))
