-- ===== src/Policy/Layout.antt =====
-- The plan that a policy tree should compile to, and what the tree itself decides. Gates stand in
-- postorder, so a subtree is one run of gates that ends in its root; responses follow leaf order.
use leelo.Base.{
  ℕ, suc, ◌+◌, ◌-◌, ◌≤◌, ◌<◌, ◌≡◌, refl, Bool, false, ◌||◌, List, [], ◌∷◌, ◌++◌, arith, ltb, leb,
  ◌==◌, if◌then◌else◌, length, length-append,
}
use leelo.Policy.Tree.{NetworkNode, Nodes, nil, cons, count_nodes}
use leelo.Policy.Verified.{Gate, is_set}
use leelo.Policy.Check.{Leaf}

unfoldable mutual
  pub node_count : NetworkNode → ℕ
  node_count (NetworkNode.leaf id provider_id) = 1
  node_count (NetworkNode.threshold id required children) = suc (forest_nodes children)

  pub forest_nodes : Nodes → ℕ
  forest_nodes nil = 0
  forest_nodes (cons n ns) = node_count n + forest_nodes ns

unfoldable mutual
  pub leaf_list : NetworkNode → List Leaf
  leaf_list (NetworkNode.leaf id provider_id) = (id, provider_id) ∷ []
  leaf_list (NetworkNode.threshold id required children) = forest_leaves children

  pub forest_leaves : Nodes → List Leaf
  forest_leaves nil = []
  forest_leaves (cons n ns) = leaf_list n ++ forest_leaves ns

abbrev pub leaf_count : NetworkNode → ℕ
leaf_count n = length (leaf_list n)

-- The gate of each child's root, when the first child's gates start at `g`.
unfoldable pub roots : Nodes → ℕ → List ℕ
roots nil g = []
roots (cons n ns) g = (g + node_count n - 1) ∷ roots ns (g + node_count n)

unfoldable mutual
  pub layout : NetworkNode → ℕ → ℕ → List Gate
  layout (NetworkNode.leaf id provider_id) g l = Gate.leaf l ∷ []
  layout (NetworkNode.threshold id required children) g l =
      forest_layout children g l ++ Gate.threshold required (roots children g) ∷ []

  pub forest_layout : Nodes → ℕ → ℕ → List Gate
  forest_layout nil g l = []
  forest_layout (cons n ns) g l =
      layout n g l ++ forest_layout ns (g + node_count n) (l + leaf_count n)

-- Direct evaluation of the tree; the responses of its leaves start at position `l`.
unfoldable mutual
  pub source_value : NetworkNode → List Bool → ℕ → Bool
  source_value (NetworkNode.leaf id provider_id) responses l = is_set responses l
  source_value (NetworkNode.threshold id required children) responses l =
      if required == 0 || ltb (count_nodes children) required
      then false
      else leb required (source_successes children responses l)

  pub source_successes : Nodes → List Bool → ℕ → ℕ
  source_successes nil responses l = 0
  source_successes (cons n ns) responses l =
      (if source_value n responses l then 1 else 0)
      + source_successes ns responses (l + leaf_count n)

-- Every threshold asks for at least one child and for no more than there are.
unfoldable mutual
  pub HasThresholds : NetworkNode → Type 0
  HasThresholds (NetworkNode.leaf id provider_id) = Unit
  HasThresholds (NetworkNode.threshold id required children) =
      (0 < required) × (required ≤ count_nodes children) × AllThresholds children

  pub AllThresholds : Nodes → Type 0
  AllThresholds nil = Unit
  AllThresholds (cons n ns) = HasThresholds n × AllThresholds ns

-- The tree has at most `d` levels.
unfoldable mutual
  pub IsWithin : NetworkNode → ℕ → Type 0
  IsWithin (NetworkNode.leaf id provider_id) d = 0 < d
  IsWithin (NetworkNode.threshold id required children) d = (0 < d) × AllWithin children (d - 1)

  pub AllWithin : Nodes → ℕ → Type 0
  AllWithin nil d = Unit
  AllWithin (cons n ns) d = IsWithin n d × AllWithin ns d

pub node_count_pos : (n : NetworkNode) → 0 < node_count n
unfolding node_count
node_count_pos (NetworkNode.leaf id provider_id) = omega arith
node_count_pos (NetworkNode.threshold id required children) = omega arith

mutual
  unfolding layout node_count

  length-layout' : (n : NetworkNode) (g l : ℕ) → length (layout n g l) ≡ node_count n
  length-layout' (NetworkNode.leaf id provider_id) g l = refl
  length-layout' (NetworkNode.threshold id required children) g l = omega (
    arith,
    length-append (forest_layout children g l) (Gate.threshold required (roots children g) ∷ []),
    length-forest_layout' children g l,
  )

  length-forest_layout' : (ns : Nodes) (g l : ℕ) → length (forest_layout ns g l) ≡ forest_nodes ns
  length-forest_layout' nil g l = refl
  length-forest_layout' (cons n ns) g l = omega (
    arith,
    length-append (layout n g l) (forest_layout ns (g + node_count n) (l + leaf_count n)),
    length-layout' n g l,
    length-forest_layout' ns (g + node_count n) (l + leaf_count n),
  )

pub length-layout : (n : NetworkNode) (g l : ℕ) → length (layout n g l) ≡ node_count n
length-layout = length-layout'

pub length-forest_layout : (ns : Nodes) (g l : ℕ) → length (forest_layout ns g l) ≡ forest_nodes ns
length-forest_layout = length-forest_layout'

pub length-roots : (ns : Nodes) (g : ℕ) → length (roots ns g) ≡ count_nodes ns
unfolding roots
length-roots nil g = refl
length-roots (cons n ns) g = omega (arith, length-roots ns (g + node_count n))
