-- ===== src/Policy/Session.antt =====
-- `PolicySession` of crates/leelo-policy/src/lib.rs. A method returns the session after the call and
-- its result; on an error the session is as before.
pub mod Calls
pub mod Invariant
pub mod Release
pub mod Safety
use leelo.Base.{
  ℕ, ◌≡◌, refl, Bool, true, false, not, ◌&&◌, ◌||◌, List, Option, none, some, if◌then◌else◌, length,
  replicate, Result, ok, err,
}
use leelo.Policy.Verified.{
  ReleaseState, record_response, evaluate_network, try_release, can_release as state_can_release,
}
use leelo.Policy.Compile.{
  Mode, network_bound, attested, PolicyError, NetworkPlan, ProductionPolicy,
  envelope_not_authenticated, unknown_network_leaf, duplicate_response, factors_not_satisfied,
  root_not_authenticated, already_released,
}
use leelo.Policy.Responses.{position}

pub record PolicySession : Type 0 where
  pub require_live : Bool
  pub plan : NetworkPlan
  pub responses : List Bool
  pub state : ReleaseState

abbrev pub Outcome : Type 0
Outcome = PolicySession × Result PolicyError (Unit {0})

abbrev pub is_attested : Mode → Bool
is_attested network_bound = false
is_attested attested = true

unfoldable pub start : ProductionPolicy → PolicySession
start policy = record {
  require_live = is_attested policy.mode;
  plan = policy.plan;
  responses = replicate (length policy.plan.leaves) false;
  state = record {
    envelope_authenticated = false;
    tpm_authenticated = false;
    network_satisfied = false;
    live_authorized = false;
    root_authenticated = false;
    released = false;
  };
}

unfoldable pub authenticate_envelope : PolicySession → Outcome
authenticate_envelope s =
    if s.state.released
    then (s, err already_released)
    else (record s { state = record (s.state) { envelope_authenticated = true } }, ok tt)

unfoldable pub require_authenticated : PolicySession → Result PolicyError (Unit {0})
require_authenticated s =
    if s.state.released
    then err already_released
    else if not s.state.envelope_authenticated
    then err envelope_not_authenticated
    else ok tt

-- The rest of a method, if `self.require_authenticated()?` returned `ok`.
abbrev pub after : PolicySession → Result PolicyError (Unit {0}) → Outcome → Outcome
after s (err e) rest = (s, err e)
after s (ok _) rest = rest

abbrev pub authenticated : PolicySession → Outcome → Outcome
authenticated s rest = after s (require_authenticated s) rest

abbrev pub record_at : PolicySession → ℕ → List Bool × Bool → Outcome
record_at s node_id (responses', false) = (s, err (duplicate_response node_id))
record_at s node_id (responses', true) = (
  record s {
    responses = responses';
    state = record (s.state) { network_satisfied = evaluate_network s.plan.gates responses' };
  },
  ok tt,
)

abbrev pub accept_at : PolicySession → ℕ → Option ℕ → Outcome
accept_at s node_id none = (s, err (unknown_network_leaf node_id))
accept_at s node_id (some index) = record_at s node_id (record_response s.responses index)

unfoldable pub accept_network : PolicySession → ℕ → Outcome
unfolding require_authenticated
accept_network s node_id = authenticated s (accept_at s node_id (position node_id s.plan.leaves))

unfoldable pub confirm_tpm : PolicySession → Outcome
unfolding require_authenticated
confirm_tpm s =
    authenticated s (record s { state = record (s.state) { tpm_authenticated = true } }, ok tt)

unfoldable pub confirm_live_authorization : PolicySession → Outcome
unfolding require_authenticated
confirm_live_authorization s =
    authenticated s (record s { state = record (s.state) { live_authorized = true } }, ok tt)

unfoldable pub can_reconstruct : PolicySession → Bool
can_reconstruct s =
    s.state.envelope_authenticated
    && s.state.tpm_authenticated
    && s.state.network_satisfied
    && (not s.require_live || s.state.live_authorized)
    && not s.state.released

unfoldable pub authenticate_root : PolicySession → Outcome
unfolding require_authenticated can_reconstruct
authenticate_root s = authenticated s (
    if not (can_reconstruct s)
    then (s, err factors_not_satisfied)
    else (record s { state = record (s.state) { root_authenticated = true } }, ok tt))

unfoldable pub can_release : PolicySession → Bool
unfolding state_can_release
can_release s = state_can_release s.state s.require_live

unfoldable pub release : PolicySession → Outcome
unfolding require_authenticated can_reconstruct try_release
release s = authenticated s (
    if not (can_reconstruct s)
    then (s, err factors_not_satisfied)
    else if not s.state.root_authenticated
    then (s, err root_not_authenticated)
    else let (state', allowed) = try_release s.state s.require_live in
      if allowed
      then (record s { state = state' }, ok tt)
      else (record s { state = state' }, err already_released))
