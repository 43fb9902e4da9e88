-- ===== src/Policy/Responses.antt =====
-- The responses of a plan and `network_satisfied`, crates/leelo-policy/src/lib.rs.
use leelo.Base.{
  ℕ, suc, Bool, false, List, [], ◌∷◌, Option, none, some, ◌==◌, if◌then◌else◌, length, replicate,
  Result, ok, err, ◌>>=◌,
}
use leelo.Policy.Verified.{record_response, evaluate_network}
use leelo.Policy.Check.{Leaf}
use leelo.Policy.Compile.{
  PolicyError, NetworkPlan, ProductionPolicy, unknown_network_leaf, duplicate_response,
}

-- `leaves.iter().position(|(leaf, _)| *leaf == id)`.
unfoldable pub position : ℕ → List Leaf → Option ℕ
position i [] = none
position i ((j, p) ∷ leaves) =
    let rest = position i leaves in
    if j == i then some 0 else elim rest [ none ↦ none | some k ↦ some (suc k) ]

-- One response: the responses after it, or the error.
unfoldable pub respond : List Leaf → ℕ → List Bool → Result PolicyError (List Bool)
unfolding position record_response
respond leaves i responses = elim (position i leaves) [
  | none ↦ err (unknown_network_leaf i)
  | some index ↦
      let (responses', accepted) = record_response responses index in
      if accepted then ok responses' else err (duplicate_response i)
]

unfoldable pub respond_all : List Leaf → List ℕ → List Bool → Result PolicyError (List Bool)
unfolding respond
respond_all leaves [] responses = ok responses
respond_all leaves (i ∷ available) responses = do
  responses' ← respond leaves i responses
  respond_all leaves available responses'

unfoldable pub responses : NetworkPlan → List ℕ → Result PolicyError (List Bool)
unfolding respond_all
responses plan available = respond_all plan.leaves available (replicate (length plan.leaves) false)

unfoldable pub network_satisfied : ProductionPolicy → List ℕ → Result PolicyError Bool
unfolding responses evaluate_network
network_satisfied policy available = do
  rs ← responses policy.plan available
  ok (evaluate_network policy.plan.gates rs)
