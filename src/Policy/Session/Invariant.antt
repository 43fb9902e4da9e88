-- ===== src/Policy/Session/Invariant.antt =====
-- What holds of a `PolicySession` (crates/leelo-policy/src/lib.rs) after any sequence of calls.
use leelo.Base.{ℕ, ◌≡◌, Bool, true, not, ◌&&◌, ◌||◌, List, err, arith}
use leelo.Policy.Verified.{record_response, evaluate_network}
use leelo.Policy.Compile.{NetworkPlan, already_released}
use leelo.Policy.Satisfied.{answered}
use leelo.Policy.Session.{
  PolicySession, authenticate_envelope, require_authenticated, accept_network, confirm_tpm,
  confirm_live_authorization, authenticate_root, release,
}
use leelo.Policy.Session.Calls.{
  Call, envelope, tpm, live, root, finish, network, call, logged, happened, accepted,
}

-- The state's marks are the calls that succeeded, and each mark rests on those that it needs.
pub record Marks (s : PolicySession) (log : List Call) : Type 0 where
  pub envelope_logged : s.state.envelope_authenticated ≡ happened envelope log
  pub tpm_logged : s.state.tpm_authenticated ≡ happened tpm log
  pub live_logged : s.state.live_authorized ≡ happened live log
  pub root_logged : s.state.root_authenticated ≡ happened root log
  pub finish_logged : s.state.released ≡ happened finish log
  pub root_needs :
      s.state.root_authenticated ≡ true
      → (s.state.envelope_authenticated
          && s.state.tpm_authenticated
          && (not s.require_live || s.state.live_authorized))
        ≡ true
  pub finish_needs :
      s.state.released ≡ true → (s.state.root_authenticated && s.state.network_satisfied) ≡ true

-- The responses are those of the accepted leaves, and the network's mark was read off them.
pub record Answers (plan : NetworkPlan) (require_live : Bool) (s : PolicySession) (log : List Call)
    : Type 0 where
  pub same_plan : s.plan ≡ plan
  pub same_mode : s.require_live ≡ require_live
  pub answers : s.responses ≡ answered (accepted log) plan.leaves
  pub network_needs :
      s.state.network_satisfied ≡ true
      → evaluate_network plan.gates (answered (accepted log) plan.leaves) ≡ true

-- A released session refuses every call, and stays as it is.
pub call_released :
    (s : PolicySession) (c : Call) → s.state.released ≡ true → call s c ≡ (s, err already_released)
unfolding call authenticate_envelope accept_network confirm_tpm confirm_live_authorization
    authenticate_root release
call_released s envelope h = ground arith
call_released s tpm h = ground arith
call_released s live h = ground arith
call_released s root h = ground arith
call_released s finish h = ground arith
call_released s (network i) h = rw (h, require_authenticated)

Marks-envelope :
    (s : PolicySession) (log : List Call)
    → Marks s log
    → Marks (authenticate_envelope s).0 (logged envelope (authenticate_envelope s) log)
unfolding authenticate_envelope
Marks-envelope s log m = ground arith

Marks-tpm :
    (s : PolicySession) (log : List Call)
    → Marks s log
    → Marks (confirm_tpm s).0 (logged tpm (confirm_tpm s) log)
unfolding confirm_tpm
Marks-tpm s log m = ground arith

Marks-live :
    (s : PolicySession) (log : List Call)
    → Marks s log
    → Marks (confirm_live_authorization s).0 (logged live (confirm_live_authorization s) log)
unfolding confirm_live_authorization
Marks-live s log m = ground arith

Marks-root :
    (s : PolicySession) (log : List Call)
    → Marks s log
    → Marks (authenticate_root s).0 (logged root (authenticate_root s) log)
unfolding authenticate_root
Marks-root s log m = ground arith

Marks-finish :
    (s : PolicySession) (log : List Call)
    → Marks s log
    → Marks (release s).0 (logged finish (release s) log)
unfolding release
Marks-finish s log m = ground arith

Marks-network :
    (i : ℕ) (s : PolicySession) (log : List Call)
    → Marks s log
    → Marks (accept_network s i).0 (logged (network i) (accept_network s i) log)
unfolding accept_network record_response
Marks-network i s log m = ground arith

-- Every call keeps the marks true to the log.
pub call-Marks :
    (s : PolicySession) (c : Call) (log : List Call)
    → Marks s log
    → Marks (call s c).0 (logged c (call s c) log)
unfolding call
call-Marks s envelope log m = Marks-envelope s log m
call-Marks s tpm log m = Marks-tpm s log m
call-Marks s live log m = Marks-live s log m
call-Marks s root log m = Marks-root s log m
call-Marks s finish log m = Marks-finish s log m
call-Marks s (network i) log m = Marks-network i s log m
