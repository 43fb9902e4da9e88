-- ===== src/Policy/Session/Safety.antt =====
-- A caller who obtains a release from `PolicySession` (crates/leelo-policy/src/lib.rs), by whatever
-- calls, has shown every factor of the policy.
use leelo.Base.{ℕ, ◌≡◌, refl, sym, ◌∙◌, ap, subst, Bool, true, not, ◌||◌, List, [], ◌∷◌, ok, arith}
use leelo.Policy.Tree.{NetworkNode}
use leelo.Policy.Verified.{evaluate_network}
use leelo.Policy.Compile.{ProductionPolicy, NetworkPlan, Mode, new}
use leelo.Policy.Admissible.{DistinctIds}
use leelo.Policy.Admission.{new-ok}
use leelo.Policy.Satisfied.{answered, leaf_ids, satisfied}
use leelo.Policy.LeafIds.{DistinctIds-leaf_ids}
use leelo.Policy.Runs.{answered-none}
use leelo.Policy.Decision.{evaluate_network-answered}
use leelo.Policy.Session.{PolicySession, start, is_attested}
use leelo.Policy.Session.Calls.{
  Call, envelope, tpm, live, root, finish, call, logged, run, happened, accepted,
}
use leelo.Policy.Session.Invariant.{Marks, Answers, call-Marks, call_released}
use leelo.Policy.Session.Release.{call-Answers}

run-Marks :
    (s : PolicySession) (log calls : List Call)
    → Marks s log
    → Marks (run s log calls).0 (run s log calls).1
unfolding run
run-Marks s log [] m = m
run-Marks s log (c ∷ calls) m =
    run-Marks (call s c).0 (logged c (call s c) log) calls (call-Marks s c log m)

run-Answers :
    (plan : NetworkPlan) (require_live : Bool) (s : PolicySession) (log calls : List Call)
    → DistinctIds (leaf_ids plan.leaves)
    → Answers plan require_live s log
    → Answers plan require_live (run s log calls).0 (run s log calls).1
unfolding run
run-Answers plan require_live s log [] d m = m
run-Answers plan require_live s log (c ∷ calls) d m =
    run-Answers plan require_live (call s c).0 (logged c (call s c) log) calls d
      (call-Answers plan require_live c s log d m)

start-Marks : (p : ProductionPolicy) → Marks (start p) []
unfolding start
start-Marks p = ground arith

start-Answers : (p : ProductionPolicy) → Answers p.plan (is_attested p.mode) (start p) []
unfolding start
start-Answers p = record {
  same_plan = refl;
  same_mode = refl;
  answers = answered-none p.plan.leaves;
  network_needs = λ h. cc h;
}

-- What a caller has shown, by the calls that succeeded.
pub record HasShownAll (mode : Mode) (n : NetworkNode) (log : List Call) : Type 0 where
  pub envelope_shown : happened envelope log ≡ true
  pub tpm_shown : happened tpm log ≡ true
  pub live_shown : (not (is_attested mode) || happened live log) ≡ true
  pub root_shown : happened root log ≡ true
  pub network_shown : satisfied n (accepted log) ≡ true

Marks-shown :
    (s : PolicySession) (log : List Call)
    → Marks s log
    → happened finish log ≡ true
    → (happened envelope log ≡ true)
      × (happened tpm log ≡ true)
      × (s.require_live ≡ true → happened live log ≡ true)
      × (happened root log ≡ true)
      × (s.state.network_satisfied ≡ true)
Marks-shown s log m h = ground arith

live_test :
    (required shown : Bool) → (required ≡ true → shown ≡ true) → (not required || shown) ≡ true
live_test required shown h = ground arith

-- However a session of an admitted policy is driven, if a release has succeeded then so have the
-- envelope, the TPM, the root and, for an attested policy, the live authorization, and the accepted
-- leaves satisfy the nested thresholds of the policy's tree.
pub release-HasShownAll :
    (mode : Mode) (tpm_node_id : ℕ) (n : NetworkNode) (p : ProductionPolicy) (calls : List Call)
    → new mode tpm_node_id n ≡ ok p
    → happened finish (run (start p) [] calls).1 ≡ true
    → HasShownAll mode n (run (start p) [] calls).1
release-HasShownAll mode tpm_node_id n p calls admitted released =
    let (a, e) = (new-ok mode tpm_node_id n p).0 admitted in
    let d : DistinctIds (leaf_ids p.plan.leaves) =
      subst (λ q. DistinctIds (leaf_ids q.plan.leaves)) (sym e)
        (DistinctIds-leaf_ids tpm_node_id n a) in
    let m = run-Marks (start p) [] calls (start-Marks p) in
    let r = run-Answers p.plan (is_attested p.mode) (start p) [] calls d (start-Answers p) in
    let (env, tpm_done, live_done, root_done, net) = Marks-shown _ _ m released in
    record {
      envelope_shown = env;
      tpm_shown = tpm_done;
      live_shown =
          live_test (is_attested mode) _
            λ is. live_done (r.same_mode ∙ ap is_attested (ap (λ q. q.mode) e) ∙ is);
      root_shown = root_done;
      network_shown =
          sym (evaluate_network-answered tpm_node_id n _ a)
          ∙ subst
              (λ q.
                evaluate_network q.plan.gates
                  (answered (accepted (run (start p) [] calls).1) q.plan.leaves)
                ≡ true)
              e (r.network_needs net);
    }

run_released :
    (s : PolicySession) (log calls : List Call)
    → s.state.released ≡ true
    → run s log calls ≡ (s, log)
unfolding run
run_released s log [] h = refl
run_released s log (c ∷ calls) h = rw (call_released s c h) (run_released s log calls h)

-- Once a session has released, no sequence of calls changes it or succeeds in anything: a
-- release is given at most once.
pub run_after_release :
    (p : ProductionPolicy) (calls more : List Call)
    → happened finish (run (start p) [] calls).1 ≡ true
    → run (run (start p) [] calls).0 (run (start p) [] calls).1 more ≡ run (start p) [] calls
run_after_release p calls more h =
    let m = run-Marks (start p) [] calls (start-Marks p) in
    run_released (run (start p) [] calls).0 (run (start p) [] calls).1 more (m.finish_logged ∙ h)
