-- ===== src/Collector/Boots.antt =====
-- How crates/leelo-collector/src/reconcile.rs classifies the expected boots: the checks of the
-- inventory and of the observations, and the state of one boot. A state is the source's index.
pub mod Latest
pub mod Success
pub mod Names
use leelo.Base.{
  is_within, ℕ, zero, suc, ◌*◌, ◌-◌, List, [], ◌∷◌, Bool, true, false, not, ◌&&◌, ◌||◌, Option,
  none, some, ltb, leb, ◌==◌, if◌then◌else◌, length, bytes_eq, get_elem?, set, codes,
}
use leelo.Collector.Types.{
  ExpectedBoot, Inventory, BootOutcome, BootObservation, Observations, is_success,
}

-- `timestamp` and `now` are milliseconds.
unfoldable pub fresh : ℕ → ℕ → ℕ → Bool
fresh timestamp now validity = leb timestamp now && leb (now - timestamp) (validity * 1000)

abbrev pub contains : List ℕ → ℕ → Bool
contains [] v = false
contains (b ∷ bs) v = b == v || contains bs v

-- `u8::is_ascii_alphanumeric`.
abbrev pub is_ascii_alphanumeric : ℕ → Bool
is_ascii_alphanumeric v = is_within 48 57 v || is_within 65 90 v || is_within 97 122 v

abbrev pub all_bytes : (ℕ → Bool) → List ℕ → Bool
all_bytes test [] = true
all_bytes test (b ∷ bs) = test b && all_bytes test bs

unfoldable pub reference : List ℕ → Bool
reference value =
    not (length value == 0)
    && leb (length value) 64
    && all_bytes (λ v. is_ascii_alphanumeric v || contains (codes "_-.:") v) value

-- Whether the set of names has the name of a boot already.
abbrev pub is_repeated : ExpectedBoot → List ExpectedBoot → Bool
is_repeated boot [] = false
is_repeated boot (b ∷ bs) =
    bytes_eq b.target boot.target && bytes_eq b.boot_id boot.boot_id || is_repeated boot bs

-- The names of `seen` are in the set.
unfoldable pub check_boots : ℕ → List ExpectedBoot → List ExpectedBoot → Bool
check_boots updated_at_ms seen [] = true
check_boots updated_at_ms seen (boot ∷ boots) =
    let rest = check_boots updated_at_ms (boot ∷ seen) boots in
    if not (reference boot.target)
      || not (reference boot.boot_id)
      || ltb boot.deadline_ms boot.requested_at_ms
      || ltb updated_at_ms boot.requested_at_ms
      || is_repeated boot seen
    then false
    else rest

unfoldable pub any_invalid : ℕ → List BootObservation → Bool
any_invalid updated_at_ms [] = false
any_invalid updated_at_ms (boot ∷ boots) =
    (not (reference boot.target)
      || not (reference boot.boot_id)
      || ltb updated_at_ms boot.observed_at_ms)
    || any_invalid updated_at_ms boots

-- An observation of the expected boot, made since it was requested.
abbrev pub is_of : ExpectedBoot → BootObservation → Bool
is_of expected value =
    bytes_eq value.target expected.target
    && bytes_eq value.boot_id expected.boot_id
    && leb expected.requested_at_ms value.observed_at_ms

unfoldable pub matching : ExpectedBoot → List BootObservation → List BootObservation
matching expected [] = []
matching expected (value ∷ values) =
    let rest = matching expected values in if is_of expected value then value ∷ rest else rest

-- `max_by_key`: of several that are the latest, the last one.
unfoldable pub later : BootObservation → BootObservation → BootObservation
later best value = if ltb value.observed_at_ms best.observed_at_ms then best else value

unfoldable pub latest_from : BootObservation → List BootObservation → BootObservation
latest_from best [] = best
latest_from best (value ∷ values) = latest_from (later best value) values

abbrev pub latest : List BootObservation → Option BootObservation
latest [] = none
latest (value ∷ values) = some (latest_from value values)

abbrev pub is_same : BootOutcome → BootOutcome → Bool
is_same BootOutcome.success o = is_success o
is_same BootOutcome.failure o = not (is_success o)

-- Whether an observation of the same time has another outcome.
unfoldable pub disagrees : ExpectedBoot → BootObservation → BootObservation → Bool
disagrees expected last value =
    bytes_eq value.target expected.target
    && bytes_eq value.boot_id expected.boot_id
    && value.observed_at_ms == last.observed_at_ms
    && not (is_same value.outcome last.outcome)

unfoldable pub conflicts : ExpectedBoot → BootObservation → List BootObservation → Bool
conflicts expected last [] = false
conflicts expected last (value ∷ values) =
    disagrees expected last value || conflicts expected last values

unfoldable pub classify : ExpectedBoot → List BootObservation → ℕ → Option BootObservation → ℕ
classify expected values now none = if leb now expected.deadline_ms then 2 else 3
classify expected values now (some last) =
    if conflicts expected last values
    then 4
    else if is_success last.outcome && ltb expected.deadline_ms last.observed_at_ms
    then 5
    else if is_success last.outcome
    then 0
    else 1

unfoldable pub boot_state : Bool → Bool → ExpectedBoot → List BootObservation → ℕ → ℕ
boot_state inventory_fresh observations_fresh expected values now =
    if not inventory_fresh || not observations_fresh
    then 4
    else classify expected values now (latest (matching expected values))

-- `states[state] += 1`
unfoldable pub count_state : List ℕ → ℕ → List ℕ
count_state [] state = []
count_state (n ∷ ns) zero = suc n ∷ ns
count_state (n ∷ ns) (suc state) = n ∷ count_state ns state

unfoldable pub count_states :
    Bool → Bool → List ExpectedBoot → List BootObservation → ℕ → List ℕ → List ℕ
count_states inventory_fresh observations_fresh [] values now states = states
count_states inventory_fresh observations_fresh (expected ∷ boots) values now states =
    count_states inventory_fresh observations_fresh boots values now
      (count_state states (boot_state inventory_fresh observations_fresh expected values now))
