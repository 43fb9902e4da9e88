-- ===== src/Policy/Compile.antt =====
-- `compile_node` and `ProductionPolicy` of crates/leelo-policy/src/lib.rs. The `&mut` arguments of
-- the compiler are the fields of `Build`; on an error the caller drops them, so `err` has none.
use leelo.Base.{
  ℕ, ◌+◌, Bool, false, ◌||◌, List, [], ◌∷◌, ◌++◌, ltb, leb, ◌==◌, if◌then◌else◌, length, bytes_eq,
  Result, ok, err, ◌>>=◌, ◌>>◌, guard, not, map,
}
use leelo.Sss.Share
use leelo.Policy.Tree.{NetworkNode, Nodes, nil, cons, id, count_nodes}
use leelo.Policy.Verified.{Gate}
use leelo.Policy.Check.{Leaf, check_compilation}

abbrev pub max_nodes : ℕ
max_nodes = 31

abbrev pub max_depth : ℕ
max_depth = 4

pub data Mode : Type 0 where
  network_bound attested : Mode

pub data PolicyError : Type 0 where
  too_many_nodes too_deep : PolicyError
  duplicate_node_id : ℕ → PolicyError
  duplicate_provider invalid_threshold invalid_compilation : PolicyError
  envelope_not_authenticated : PolicyError
  unknown_network_leaf : ℕ → PolicyError
  duplicate_response : ℕ → PolicyError
  factors_not_satisfied root_not_authenticated already_released : PolicyError
  sharing : Share.Error → PolicyError

pub record NetworkPlan : Type 0 where
  pub gates : List Gate
  pub leaves : List Leaf

pub record ProductionPolicy : Type 0 where
  pub mode : Mode
  pub tpm_node_id : ℕ
  pub network : NetworkNode
  pub plan : NetworkPlan

-- The sets are lists without a repetition; `insert` tests membership and adds at the front.
pub record Build : Type 0 where
  pub count : ℕ
  pub ids : List ℕ
  pub providers : List (List ℕ)
  pub gates : List Gate
  pub leaves : List Leaf

abbrev pub has_id : ℕ → List ℕ → Bool
has_id i [] = false
has_id i (j ∷ js) = i == j || has_id i js

abbrev pub has_provider : List ℕ → List (List ℕ) → Bool
has_provider p [] = false
has_provider p (q ∷ qs) = bytes_eq p q || has_provider p qs

unfoldable pub push_gate : Gate → Build → ℕ × Build
push_gate gate b = (length b.gates, record b { gates = b.gates ++ gate ∷ [] })

-- The checks that precede the match on the node.
unfoldable pub enter_node : NetworkNode → ℕ → Build → Result PolicyError Build
enter_node node depth b =
    if ltb max_depth depth
    then err too_deep
    else if leb max_nodes b.count
    then err too_many_nodes
    else if has_id (id node) b.ids
    then err (duplicate_node_id (id node))
    else ok (record b { count = b.count + 1; ids = id node ∷ b.ids })

unfoldable pub compile_leaf : ℕ → List ℕ → Build → Result PolicyError (ℕ × Build)
unfolding push_gate
compile_leaf i provider_id b =
    if has_provider provider_id b.providers
    then err duplicate_provider
    else ok (
        push_gate (Gate.leaf (length b.leaves)) (record b {
          providers = provider_id ∷ b.providers;
          leaves = b.leaves ++ (i, provider_id) ∷ [];
        }))

unfoldable mutual
  unfolding enter_node compile_leaf

  pub compile_node : NetworkNode → ℕ → Build → Result PolicyError (ℕ × Build)
  compile_node (NetworkNode.leaf i provider_id) depth b = do
    b₁ ← enter_node (NetworkNode.leaf i provider_id) depth b
    compile_leaf i provider_id b₁
  compile_node (NetworkNode.threshold i required children) depth b = do
    b₁ ← enter_node (NetworkNode.threshold i required children) depth b
    guard (not (required == 0 || ltb (count_nodes children) required)) invalid_threshold
    (indices, b₂) ← compile_children children (depth + 1) b₁
    ok (push_gate (Gate.threshold required indices) b₂)

  -- The loop over the children, which gathers the index of each child's gate.
  pub compile_children : Nodes → ℕ → Build → Result PolicyError (List ℕ × Build)
  compile_children nil depth b = ok ([], b)
  compile_children (cons child children) depth b = do
    (index, b₁) ← compile_node child depth b
    (indices, b₂) ← compile_children children depth b₁
    ok (index ∷ indices, b₂)

-- `ProductionPolicy::new`. The count starts at the implicit root and the TPM node.
unfoldable pub new : Mode → ℕ → NetworkNode → Result PolicyError ProductionPolicy
unfolding compile_node check_compilation
new mode tpm_node_id network = do
  (_, b) ←
      compile_node network 2
        (record { count = 2; ids = tpm_node_id ∷ []; providers = []; gates = []; leaves = [] })
  guard (check_compilation network b.gates b.leaves) invalid_compilation
  ok (record {
    mode = mode;
    tpm_node_id = tpm_node_id;
    network = network;
    plan = record { gates = b.gates; leaves = b.leaves };
  })

unfoldable pub node_count : ProductionPolicy → ℕ
node_count p = length p.plan.gates + 2

unfoldable pub network_leaf_ids : ProductionPolicy → List ℕ
network_leaf_ids p = map (λ l. l.0) p.plan.leaves
