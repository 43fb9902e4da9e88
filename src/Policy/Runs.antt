-- ===== src/Policy/Runs.antt =====
-- A run of responses of crates/leelo-policy/src/lib.rs, and `network_satisfied` as a whole.
use leelo.Base.{
  ℕ, ◌≡◌, refl, sym, ◌∙◌, ap, ap₂, subst, Bool, true, false, ◌||◌, List, [], ◌∷◌, map, arith,
  if◌then◌else◌, length, replicate, All, ok, err, >>=-eq-ok, ok_injective, ◌↔◌,
}
use leelo.Policy.Check.{Leaf}
use leelo.Policy.Compile.{has_id, unknown_network_leaf, duplicate_response, ProductionPolicy}
use leelo.Policy.Admissible.{DistinctIds}
use leelo.Policy.Responses.{respond, respond_all, responses}
use leelo.Policy.Satisfied.{answered, leaf_ids}
use leelo.Policy.Answers.{respond-answered}

-- None of `available` is in `seen`; all are leaves.
abbrev pub AllFresh : List ℕ → List ℕ → Type 0
AllFresh seen available = All (λ i. has_id i seen ≡ false) available

abbrev pub AllKnown : List Leaf → List ℕ → Type 0
AllKnown leaves available = All (λ i. has_id i (leaf_ids leaves) ≡ true) available

AllFresh-cons :
    (i : ℕ) (seen available : List ℕ)
    → AllFresh (i ∷ seen) available
    → (has_id i available ≡ false) × AllFresh seen available
AllFresh-cons i seen [] h = (refl, tt)
AllFresh-cons i seen (j ∷ available) h =
    let (a, b) = AllFresh-cons i seen available h.1 in (ground arith, (ground arith, b))

AllFresh-tail :
    (i : ℕ) (seen available : List ℕ)
    → has_id i available ≡ false
    → AllFresh seen available
    → AllFresh (i ∷ seen) available
AllFresh-tail i seen [] a b = tt
AllFresh-tail i seen (j ∷ available) a b =
    (ground arith, AllFresh-tail i seen available (ground arith) b.1)

-- The responses after `available`, when `seen` had answered before.
abbrev answered_after : List ℕ → List ℕ → List Leaf → List Bool
answered_after seen available leaves = map (λ l. has_id l.0 seen || has_id l.0 available) leaves

answered_after-nil :
    (seen : List ℕ) (leaves : List Leaf) → answered seen leaves ≡ answered_after seen [] leaves
answered_after-nil seen [] = refl
answered_after-nil seen (l ∷ leaves) =
    let e : has_id l.0 seen ≡ (has_id l.0 seen || false) = ground arith in
    ap₂ ◌∷◌ e (answered_after-nil seen leaves)

answered_after-cons :
    (i : ℕ) (seen available : List ℕ) (leaves : List Leaf)
    → answered_after (i ∷ seen) available leaves ≡ answered_after seen (i ∷ available) leaves
answered_after-cons i seen available [] = refl
answered_after-cons i seen available (l ∷ leaves) =
    let e : (has_id l.0 (i ∷ seen) || has_id l.0 available)
        ≡ (has_id l.0 seen || has_id l.0 (i ∷ available)) =
      ground arith in
    ap₂ ◌∷◌ e (answered_after-cons i seen available leaves)

record IsRun (leaves : List Leaf) (seen available : List ℕ) (rs : List Bool) : Type 0 where
  fresh : AllFresh seen available
  distinct : DistinctIds available
  known : AllKnown leaves available
  result : rs ≡ answered_after seen available leaves

accepted_test :
    (known seen : Bool) (i : ℕ) (rs next : List Bool)
    → (if known
        then (if seen then err (duplicate_response i) else ok rs)
        else err (unknown_network_leaf i))
      ≡ ok next
    → (known ≡ true) × (seen ≡ false) × (next ≡ rs)
accepted_test true true i rs next h = cc
accepted_test true false i rs next h = (refl, refl, sym (ok_injective h))
accepted_test false seen i rs next h = cc

module _ (leaves : List Leaf) (d : DistinctIds (leaf_ids leaves)) where
  respond_all-IsRun :
      (available seen : List ℕ) (rs : List Bool)
      → respond_all leaves available (answered seen leaves) ≡ ok rs
      → IsRun leaves seen available rs
  unfolding respond_all
  respond_all-IsRun [] seen rs h = record {
    fresh = tt;
    distinct = tt;
    known = tt;
    result = sym (ok_injective h) ∙ answered_after-nil seen leaves;
  }
  respond_all-IsRun (i ∷ available) seen rs h =
      let (next, h₁, h₂) = >>=-eq-ok (respond leaves i (answered seen leaves)) _ h in
      let step = sym (respond-answered i seen leaves d) ∙ h₁ in
      let (known, fresh, e) =
        accepted_test (has_id i (leaf_ids leaves)) (has_id i seen) i (answered (i ∷ seen) leaves)
          next step in
      let rest =
        respond_all-IsRun available (i ∷ seen) rs
          (subst (λ z. respond_all leaves available z ≡ ok rs) e h₂) in
      let (apart, fresh') = AllFresh-cons i seen available rest.fresh in
      record {
        fresh = (fresh, fresh');
        distinct = (apart, rest.distinct);
        known = (known, rest.known);
        result = rest.result ∙ answered_after-cons i seen available leaves;
      }

  IsRun-respond_all :
      (available seen : List ℕ) (rs : List Bool)
      → IsRun leaves seen available rs
      → respond_all leaves available (answered seen leaves) ≡ ok rs
  unfolding respond_all
  IsRun-respond_all [] seen rs run = ap ok (answered_after-nil seen leaves ∙ sym run.result)
  IsRun-respond_all (i ∷ available) seen rs run =
      rw (respond-answered i seen leaves d, run.known.0, run.fresh.0)
        (IsRun-respond_all available (i ∷ seen) rs (record {
          fresh = AllFresh-tail i seen available run.distinct.0 run.fresh.1;
          distinct = run.distinct.1;
          known = run.known.1;
          result = run.result ∙ sym (answered_after-cons i seen available leaves);
        }))

pub answered-none : (leaves : List Leaf) → replicate (length leaves) false ≡ answered [] leaves
answered-none [] = refl
answered-none (l ∷ leaves) = ap (λ rs. false ∷ rs) (answered-none leaves)

fresh_nil : (available : List ℕ) → AllFresh [] available
fresh_nil [] = tt
fresh_nil (i ∷ available) = (refl, fresh_nil available)

-- In a plan whose leaves have distinct identifiers, a list of responses is accepted exactly when it
-- names distinct leaves of the plan, and the result then says of each leaf whether it is listed.
pub responses_iff :
    (p : ProductionPolicy) (available : List ℕ) (rs : List Bool)
    → DistinctIds (leaf_ids p.plan.leaves)
    → (responses p.plan available ≡ ok rs) ↔ (
        DistinctIds available
        × AllKnown p.plan.leaves available
        × (rs ≡ answered available p.plan.leaves))
unfolding responses
responses_iff p available rs d = rw (answered-none p.plan.leaves) (forward, backward)
  where
    forward :
        respond_all p.plan.leaves available (answered [] p.plan.leaves) ≡ ok rs
        → DistinctIds available
          × AllKnown p.plan.leaves available
          × (rs ≡ answered available p.plan.leaves)
    forward h =
        let run = respond_all-IsRun p.plan.leaves d available [] rs h in
        (run.distinct, run.known, run.result)

    backward :
        DistinctIds available
          × AllKnown p.plan.leaves available
          × (rs ≡ answered available p.plan.leaves)
        → respond_all p.plan.leaves available (answered [] p.plan.leaves) ≡ ok rs
    backward h =
        IsRun-respond_all p.plan.leaves d available [] rs
          (record { fresh = fresh_nil available; distinct = h.0; known = h.1; result = h.2 })
