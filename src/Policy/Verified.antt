-- ===== src/Policy/Verified.antt =====
-- crates/leelo-policy/src/verified.rs: gates, the postorder evaluator, responses, release state.
use leelo.Base.{
  ℕ, ◌+◌, Bool, true, false, not, ◌&&◌, ◌||◌, List, [], ◌∷◌, ◌++◌, Option, none, some, ltb, leb,
  ◌==◌, if◌then◌else◌, length, get_elem?, get_last?, set,
}

pub data Gate : Type 0 where
  leaf : ℕ → Gate
  threshold : ℕ → List ℕ → Gate

abbrev pub or_false : Option Bool → Bool
or_false none = false
or_false (some b) = b

-- `index < values.len() && values[index]`.
abbrev pub is_set : List Bool → ℕ → Bool
is_set values index = or_false (get_elem? values index)

-- The loop over the children: the successes so far, and whether every edge was in range.
unfoldable pub count_children : List ℕ → List Bool → ℕ → Bool → ℕ × Bool
count_children [] values successes valid = (successes, valid)
count_children (child ∷ children) values successes valid =
    count_children children values
      (if ltb child (length values)
        then (if is_set values child then successes + 1 else successes)
        else successes)
      (if ltb child (length values) then valid else false)

unfoldable pub evaluate_gate : Gate → List Bool → List Bool → Bool
unfolding count_children
evaluate_gate (leaf response_index) values responses = is_set responses response_index
evaluate_gate (threshold required children) values responses =
    if required == 0 || ltb (length children) required
    then false
    else let (successes, valid) = count_children children values 0 true in
      valid && leb required successes

-- The loop over the gates, with the values of those before.
unfoldable pub evaluate_loop : List Gate → List Bool → List Bool → List Bool
unfolding evaluate_gate
evaluate_loop [] values responses = values
evaluate_loop (gate ∷ gates) values responses =
    evaluate_loop gates (values ++ evaluate_gate gate values responses ∷ []) responses

abbrev pub last_value : List Bool → Bool
last_value values = or_false (get_last? values)

unfoldable pub evaluate_network : List Gate → List Bool → Bool
unfolding evaluate_loop
evaluate_network gates responses = last_value (evaluate_loop gates [] responses)

-- What `record_response` does with what stands at `index`.
abbrev pub record_over : List Bool → ℕ → Option Bool → List Bool × Bool
record_over responses index none = (responses, false)
record_over responses index (some true) = (responses, false)
record_over responses index (some false) = (set responses index true, true)

-- The responses after the call, and whether the call was accepted.
unfoldable pub record_response : List Bool → ℕ → List Bool × Bool
record_response responses index = record_over responses index (get_elem? responses index)

pub record ReleaseState : Type 0 where
  pub envelope_authenticated : Bool
  pub tpm_authenticated : Bool
  pub network_satisfied : Bool
  pub live_authorized : Bool
  pub root_authenticated : Bool
  pub released : Bool

unfoldable pub can_release : ReleaseState → Bool → Bool
can_release s require_live =
    s.envelope_authenticated
    && s.tpm_authenticated
    && s.network_satisfied
    && (not require_live || s.live_authorized)
    && s.root_authenticated
    && not s.released

unfoldable pub try_release : ReleaseState → Bool → ReleaseState × Bool
unfolding can_release
try_release s require_live =
    if can_release s require_live then (record s { released = true }, true) else (s, false)
