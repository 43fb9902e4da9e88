-- ===== src/Policy/Check.antt =====
-- The certificate checker of crates/leelo-policy/src/verified_compile.rs. A failed check returns
-- `none` for `(false, gate_start, leaf_start)`, whose two positions no caller reads.
pub mod Gates
use leelo.Base.{
  ℕ, ◌+◌, ◌-◌, Bool, true, false, not, ◌&&◌, ◌||◌, List, [], ◌∷◌, Option, none, some, ltb, ◌==◌,
  if◌then◌else◌, length, get_elem?, bytes_eq,
}
use leelo.Policy.Tree.{NetworkNode, Nodes, nil, cons, count_nodes}
use leelo.Policy.Verified.{Gate}

abbrev pub Leaf : Type 0
Leaf = ℕ × List ℕ

abbrev pub Ends : Type 0
Ends = ℕ × ℕ

unfoldable pub same_provider : List ℕ → List ℕ → Bool
unfolding bytes_eq
same_provider a b = bytes_eq a b

-- `edges == expected`, the loop over the edges of a gate.
unfoldable pub same_edges : List ℕ → List ℕ → Bool
same_edges [] [] = true
same_edges [] (y ∷ ys) = false
same_edges (x ∷ xs) [] = false
same_edges (x ∷ xs) (y ∷ ys) = if x == y then same_edges xs ys else false

abbrev pub is_leaf_gate : Option Gate → ℕ → Bool
is_leaf_gate (some (Gate.leaf i)) start = i == start
is_leaf_gate _ start = false

abbrev pub is_leaf_at : Option Leaf → ℕ → List ℕ → Bool
is_leaf_at (some (i, p)) id provider_id = i == id && same_provider p provider_id
is_leaf_at none id provider_id = false

abbrev pub is_threshold_gate : Option Gate → ℕ → List ℕ → Bool
is_threshold_gate (some (Gate.threshold actual edges)) required expected =
    actual == required && same_edges edges expected
is_threshold_gate _ required expected = false

abbrev pub bind {ℓ κ} : {A : Type ℓ} {B : Type κ} → Option A → (A → Option B) → Option B
bind none f = none
bind (some a) f = f a

module _ (gates : List Gate) (leaves : List Leaf) where
  -- The end of a threshold's check, once its children gave the edges that are expected.
  unfoldable pub check_root : ℕ → Option (Ends × List ℕ) → Option Ends
  unfolding same_edges
  check_root required none = none
  check_root required (some ((gc, lc), expected)) =
      if is_threshold_gate (get_elem? gates gc) required expected then some (gc + 1, lc) else none

  unfoldable pub check_leaf : ℕ → List ℕ → ℕ → ℕ → Option Ends
  unfolding same_provider
  check_leaf id provider_id gate_start leaf_start =
      if is_leaf_at (get_elem? leaves leaf_start) id provider_id
        && is_leaf_gate (get_elem? gates gate_start) leaf_start
      then some (gate_start + 1, leaf_start + 1)
      else none

  unfoldable mutual
    pub check_subtree : NetworkNode → ℕ → ℕ → ℕ → Option Ends
    check_subtree (NetworkNode.leaf id provider_id) gate_start leaf_start depth =
        if depth == 0 || not (ltb gate_start (length gates)) || not (ltb leaf_start (length leaves))
        then none
        else check_leaf id provider_id gate_start leaf_start
    check_subtree (NetworkNode.threshold id required children) gate_start leaf_start depth =
        let checked = check_children children gate_start leaf_start (depth - 1) in
        if depth == 0 || not (ltb gate_start (length gates)) || not (ltb leaf_start (length leaves))
        then none
        else if required == 0 || ltb (count_nodes children) required
        then none
        else check_root required checked

    -- The loop over the children, with the gates that each child's root must stand at.
    pub check_children : Nodes → ℕ → ℕ → ℕ → Option (Ends × List ℕ)
    check_children nil gc lc depth = some ((gc, lc), [])
    check_children (cons child children) gc lc depth =
        bind (check_subtree child gc lc depth) λ (gc', lc').
          bind (check_children children gc' lc' depth)
            λ (ends, expected). some (ends, (gc' - 1) ∷ expected)

abbrev pub ends_at : Option Ends → ℕ → ℕ → Bool
ends_at none g l = false
ends_at (some (g', l')) g l = g' == g && l' == l

unfoldable pub check_compilation : NetworkNode → List Gate → List Leaf → Bool
unfolding check_subtree check_leaf check_root
check_compilation node gates leaves =
    ends_at (check_subtree gates leaves node 0 0 3) (length gates) (length leaves)
