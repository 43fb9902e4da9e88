-- ===== src/Policy/Session/Calls.antt =====
-- A caller of `PolicySession` (crates/leelo-policy/src/lib.rs): any sequence of its methods.
use leelo.Base.{ℕ, Bool, true, false, ◌||◌, List, [], ◌∷◌, ok, err}
use leelo.Policy.Session.{
  PolicySession, Outcome, authenticate_envelope, accept_network, confirm_tpm,
  confirm_live_authorization, authenticate_root, release,
}

pub data Call : Type 0 where
  envelope tpm live root finish : Call
  network : ℕ → Call

unfoldable pub call : PolicySession → Call → Outcome
call s envelope = authenticate_envelope s
call s tpm = confirm_tpm s
call s live = confirm_live_authorization s
call s root = authenticate_root s
call s finish = release s
call s (network node_id) = accept_network s node_id

-- The calls that succeeded, the last first.
abbrev pub logged : Call → Outcome → List Call → List Call
logged c (s, ok _) log = c ∷ log
logged c (s, err _) log = log

unfoldable pub run : PolicySession → List Call → List Call → PolicySession × List Call
unfolding call
run s log [] = (s, log)
run s log (c ∷ calls) = let o = call s c in run o.0 (logged c o log) calls

abbrev pub same_kind : Call → Call → Bool
same_kind envelope envelope = true
same_kind tpm tpm = true
same_kind live live = true
same_kind root root = true
same_kind finish finish = true
same_kind _ _ = false

-- Whether a method other than `accept_network` has succeeded.
abbrev pub happened : Call → List Call → Bool
happened c [] = false
happened c (d ∷ log) = same_kind c d || happened c log

-- The leaves whose responses were accepted.
abbrev pub accepted : List Call → List ℕ
accepted [] = []
accepted (network i ∷ log) = i ∷ accepted log
accepted (_ ∷ log) = accepted log
