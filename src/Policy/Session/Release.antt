-- ===== src/Policy/Session/Release.antt =====
-- A release of `PolicySession` (crates/leelo-policy/src/lib.rs) needs every factor of the policy.
use leelo.Base.{
  ℕ, ◌≡◌, refl, ◌∙◌, ap, Bool, true, false, List, ◌∷◌, Result, ok, err, arith, Option, none, some,
  inl, inr, get_elem?, set, ◌⊎◌,
}
use leelo.Policy.Verified.{record_response, record_over}
use leelo.Policy.Compile.{PolicyError, duplicate_response, unknown_network_leaf, NetworkPlan}
use leelo.Policy.Admissible.{DistinctIds}
use leelo.Policy.Responses.{position}
use leelo.Policy.Satisfied.{answered, leaf_ids}
use leelo.Policy.Answers.{position-IsAnswerAt}
use leelo.Policy.Session.{
  PolicySession, authenticate_envelope, require_authenticated, after, accept_at, accept_network,
  confirm_tpm, confirm_live_authorization, authenticate_root, release, record_at,
}
use leelo.Policy.Session.Calls.{
  Call, envelope, tpm, live, root, finish, network, call, logged, accepted,
}
use leelo.Policy.Session.Invariant.{Answers}

accept_recorded :
    (s : PolicySession) (i k : ℕ) (o : Option Bool)
    → ((e : PolicyError) × (record_at s i (record_over s.responses k o) ≡ (s, err e)))
      ⊎ (record_at s i (record_over s.responses k o) ≡ record_at s i (set s.responses k true, true))
accept_recorded s i k none = inl (duplicate_response i, refl)
accept_recorded s i k (some true) = inl (duplicate_response i, refl)
accept_recorded s i k (some false) = inr refl

accept_split :
    (s : PolicySession) (i : ℕ) (r : Result PolicyError (Unit {0})) (o : Option ℕ)
    → position i s.plan.leaves ≡ o
    → ((e : PolicyError) × (after s r (accept_at s i o) ≡ (s, err e)))
      ⊎ ((k : ℕ) × (position i s.plan.leaves ≡ some k)
          × (after s r (accept_at s i o) ≡ record_at s i (set s.responses k true, true)))
unfolding record_response
accept_split s i (err e) o found = inl (e, refl)
accept_split s i (ok u) none found = inl (unknown_network_leaf i, refl)
accept_split s i (ok u) (some k) found = elim (accept_recorded s i k (get_elem? s.responses k)) [
  | inl refused ↦ inl refused
  | inr done ↦ inr (k, found, done)
]

-- `accept_network` refuses and changes nothing, or records the answer of one leaf.
accept_cases :
    (s : PolicySession) (i : ℕ)
    → ((e : PolicyError) × (accept_network s i ≡ (s, err e)))
      ⊎ ((k : ℕ) × (position i s.plan.leaves ≡ some k)
          × (accept_network s i ≡ record_at s i (set s.responses k true, true)))
unfolding accept_network
accept_cases s i = accept_split s i (require_authenticated s) (position i s.plan.leaves) refl

module _ (plan : NetworkPlan) (require_live : Bool) where
  Answers-network :
      (i : ℕ) (s : PolicySession) (log : List Call)
      → DistinctIds (leaf_ids plan.leaves)
      → Answers plan require_live s log
      → Answers plan require_live
          (accept_network s i).0
          (logged (network i) (accept_network s i) log)
  Answers-network i s log d m = elim (accept_cases s i) [
    | inl (e, refused) ↦ rw refused m
    | inr (k, found, done) ↦
        let (here, there, known) =
          position-IsAnswerAt i k (accepted log) plan.leaves d (rw m.same_plan at found) in
        let new_answers : set s.responses k true ≡ answered (i ∷ accepted log) plan.leaves =
          ap (λ rs. set rs k true) m.answers ∙ there in
        rw done (record {
          same_plan = m.same_plan;
          same_mode = m.same_mode;
          answers = new_answers;
          network_needs = λ h. rw (m.same_plan, new_answers) at h;
        })
  ]

  pub call-Answers :
      (c : Call) (s : PolicySession) (log : List Call)
      → DistinctIds (leaf_ids plan.leaves)
      → Answers plan require_live s log
      → Answers plan require_live (call s c).0 (logged c (call s c) log)
  unfolding call authenticate_envelope confirm_tpm confirm_live_authorization authenticate_root
      release
  call-Answers envelope s log d m = ground arith
  call-Answers tpm s log d m = ground arith
  call-Answers live s log d m = ground arith
  call-Answers root s log d m = ground arith
  call-Answers finish s log d m = ground arith
  call-Answers (network i) s log d m = Answers-network i s log d m
