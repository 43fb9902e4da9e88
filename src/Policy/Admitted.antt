-- ===== src/Policy/Admitted.antt =====
-- The certificate checker of crates/leelo-policy/src/verified_compile.rs admits every laid-out
-- plan, and nothing else.
use leelo.Base.{
  ℕ, ◌+◌, ◌-◌, ◌≤◌, ◌<◌, ◌≡◌, sym, ◌∙◌, ap, true, List, [], ◌∷◌, ◌++◌, some, arith, ltb, length,
  get_elem?, drop, Option-cases, inl, inr, append_assoc, append-nil, length-append, lt_of_drop,
  ==_iff, &&-eq-true, get_elem?_of_drop, drop-append, drop-length, ◌↔◌, lt→ltb,
}
use native.Mathlib.Nat.{add-zero, add-suc, add_assoc}
use native.Mathlib.Numerals.{add-one}
use leelo.Policy.Tree.{NetworkNode, Nodes, nil, cons, count_nodes}
use leelo.Policy.Verified.{Gate}
use leelo.Policy.Check.{
  Leaf, check_root, check_leaf, check_subtree, check_children, check_compilation,
}
use leelo.Policy.Check.Gates.{is_leaf_gate_self, is_leaf_at_self, is_threshold_gate_self}
use leelo.Policy.Layout.{
  node_count, node_count_pos, leaf_list, leaf_count, forest_nodes, forest_leaves, roots, layout,
  forest_layout, length-layout, length-forest_layout, HasThresholds, AllThresholds, IsWithin,
  AllWithin,
}
use leelo.Policy.Certificate.{subtree_sound}

mutual
  unfolding leaf_list HasThresholds

  leaves_pos : (n : NetworkNode) → HasThresholds n → 0 < leaf_count n
  leaves_pos (NetworkNode.leaf id p) h = omega arith
  leaves_pos (NetworkNode.threshold id required children) h =
      forest_leaves_pos children (omega (arith, h.0, h.1)) h.2

  forest_leaves_pos :
      (ns : Nodes) → 0 < count_nodes ns → AllThresholds ns → 0 < length (forest_leaves ns)
  forest_leaves_pos nil pos h = pos
  forest_leaves_pos (cons n ns) pos h =
      omega (arith, length-append (leaf_list n) (forest_leaves ns), leaves_pos n h.0)

pub leaf_count_pos : (n : NetworkNode) → HasThresholds n → 0 < leaf_count n
leaf_count_pos = leaves_pos

-- A position at which something stands is in range.
in_range {ℓ} :
    {A : Type ℓ} (xs front rest : List A) (i : ℕ)
    → drop i xs ≡ front ++ rest
    → 0 < length front
    → ltb i (length xs) ≡ true
in_range xs front rest i here pos =
    lt→ltb i (length xs) (lt_of_drop xs i (omega (arith, ap length here, length-append front rest)))

module _ (gates : List Gate) (leaves : List Leaf) where
  check_leaf-at :
      (id : ℕ) (p : List ℕ) (g l : ℕ)
      → get_elem? gates g ≡ some (Gate.leaf l)
      → get_elem? leaves l ≡ some (id, p)
      → check_leaf gates leaves id p g l ≡ some (g + 1, l + 1)
  unfolding check_leaf
  check_leaf-at id p g l gate leaf = ground (arith, is_leaf_gate_self l, is_leaf_at_self id p)

  check_root-at :
      (required gc lc : ℕ) (expected : List ℕ)
      → get_elem? gates gc ≡ some (Gate.threshold required expected)
      → check_root gates leaves required (some ((gc, lc), expected)) ≡ some (gc + 1, lc)
  unfolding check_root
  check_root-at required gc lc expected gate =
      rw gate (rw (is_threshold_gate_self required expected))

  -- The guards pass for a tree that is within its depth and stands inside the plan.
  check_subtree-at_leaf :
      (id : ℕ) (p : List ℕ) (g l d : ℕ)
      → 0 < d
      → ltb g (length gates) ≡ true
      → ltb l (length leaves) ≡ true
      → check_subtree gates leaves (NetworkNode.leaf id p) g l d ≡ check_leaf gates leaves id p g l
  unfolding check_subtree
  check_subtree-at_leaf id p g l d deep hg hl = ground arith

  check_subtree-at_threshold :
      (id required : ℕ) (ns : Nodes) (g l d : ℕ)
      → 0 < d
      → ltb g (length gates) ≡ true
      → ltb l (length leaves) ≡ true
      → 0 < required
      → required ≤ count_nodes ns
      → check_subtree gates leaves (NetworkNode.threshold id required ns) g l d
        ≡ check_root gates leaves required (check_children gates leaves ns g l (d - 1))
  unfolding check_subtree
  check_subtree-at_threshold id required ns g l d deep hg hl pos fits = ground arith

  module _ (g l : ℕ) (gs : List Gate) (ls : List Leaf) where
    -- Nothing stands at the end of a plan, so a tree that stands inside it starts in range.
    gate_in_range :
        (n : NetworkNode) → drop g gates ≡ layout n g l ++ gs → ltb g (length gates) ≡ true
    gate_in_range n hg =
        in_range gates (layout n g l) gs g hg (omega (arith, length-layout n g l, node_count_pos n))

    leaf_in_range :
        (n : NetworkNode)
        → HasThresholds n
        → drop l leaves ≡ leaf_list n ++ ls
        → ltb l (length leaves) ≡ true
    leaf_in_range n h hl = in_range leaves (leaf_list n) ls l hl (leaf_count_pos n h)

    leaf_complete :
        (id : ℕ) (p : List ℕ) (d : ℕ)
        → 0 < d
        → drop g gates ≡ layout (NetworkNode.leaf id p) g l ++ gs
        → drop l leaves ≡ leaf_list (NetworkNode.leaf id p) ++ ls
        → check_subtree gates leaves (NetworkNode.leaf id p) g l d ≡ some (g + 1, l + 1)
    unfolding layout leaf_list HasThresholds
    leaf_complete id p d deep hg hl =
        check_subtree-at_leaf id p g l d deep (gate_in_range (NetworkNode.leaf id p) hg)
          (leaf_in_range (NetworkNode.leaf id p) tt hl)
        ∙ check_leaf-at id p g l (get_elem?_of_drop gates g hg) (get_elem?_of_drop leaves l hl)

    threshold_complete :
        (id required : ℕ) (ns : Nodes) (d : ℕ)
        → 0 < d
        → HasThresholds (NetworkNode.threshold id required ns)
        → drop g gates ≡ layout (NetworkNode.threshold id required ns) g l ++ gs
        → drop l leaves ≡ leaf_list (NetworkNode.threshold id required ns) ++ ls
        → check_children gates leaves ns g l (d - 1)
          ≡ some ((g + forest_nodes ns, l + length (forest_leaves ns)), roots ns g)
        → check_subtree gates leaves (NetworkNode.threshold id required ns) g l d
          ≡ some (g + forest_nodes ns + 1, l + length (forest_leaves ns))
    unfolding layout leaf_list HasThresholds
    threshold_complete id required ns d deep h hg hl checked =
        check_subtree-at_threshold id required ns g l d deep
          (gate_in_range (NetworkNode.threshold id required ns) hg)
          (leaf_in_range (NetworkNode.threshold id required ns) h hl) h.0 h.1
        ∙ ap (check_root gates leaves required) checked
        ∙ check_root-at required (g + forest_nodes ns) (l + length (forest_leaves ns)) (roots ns g)
            (get_elem?_of_drop gates (g + forest_nodes ns) root_here)
      where
        root_here : drop (g + forest_nodes ns) gates ≡ Gate.threshold required (roots ns g) ∷ gs
        root_here = rw (← length-forest_layout ns g l) (
            drop-append gates (forest_layout ns g l) _ g
              (hg ∙ append_assoc (forest_layout ns g l) _ gs))

  mutual
    unfolding layout leaf_list node_count roots HasThresholds IsWithin check_subtree

    subtree_complete :
        (n : NetworkNode) (g l d : ℕ) (gs : List Gate) (ls : List Leaf)
        → HasThresholds n
        → IsWithin n d
        → drop g gates ≡ layout n g l ++ gs
        → drop l leaves ≡ leaf_list n ++ ls
        → check_subtree gates leaves n g l d ≡ some (g + node_count n, l + leaf_count n)
    subtree_complete (NetworkNode.leaf id p) g l d gs ls h w hg hl =
        leaf_complete g l gs ls id p d w hg hl
    subtree_complete (NetworkNode.threshold id required ns) g l d gs ls h w hg hl =
        threshold_complete g l gs ls id required ns d w.0 h hg hl (
          forest_complete ns g l (d - 1) (Gate.threshold required (roots ns g) ∷ gs) ls h.2 w.1
            (hg ∙ append_assoc (forest_layout ns g l) _ gs) hl)
        ∙ rw (add-one, add-suc)

    forest_complete :
        (ns : Nodes) (g l d : ℕ) (gs : List Gate) (ls : List Leaf)
        → AllThresholds ns
        → AllWithin ns d
        → drop g gates ≡ forest_layout ns g l ++ gs
        → drop l leaves ≡ forest_leaves ns ++ ls
        → check_children gates leaves ns g l d
          ≡ some ((g + forest_nodes ns, l + length (forest_leaves ns)), roots ns g)
    forest_complete nil g l d gs ls h w hg hl = rw (add-zero, add-zero)
    forest_complete (cons n ns) g l d gs ls h w hg hl =
        let hg' = hg ∙ append_assoc (layout n g l) _ gs in
        let hl' = hl ∙ append_assoc (leaf_list n) _ ls in
        let first = subtree_complete n g l d _ _ h.0 w.0 hg' hl' in
        let rest =
          forest_complete ns (g + node_count n) (l + leaf_count n) d gs ls h.1 w.1
            (rw (length-layout n g l) at (drop-append gates (layout n g l) _ g hg'))
            (drop-append leaves (leaf_list n) _ l hl') in
        rw (first, rest, length-append) (rw (add_assoc, add_assoc))

-- A plan is the one that its policy tree lays out, and the tree is one that the limits allow.
pub record IsPlan (n : NetworkNode) (gates : List Gate) (leaves : List Leaf) : Type 0 where
  pub same_gates : gates ≡ layout n 0 0
  pub same_leaves : leaves ≡ leaf_list n
  pub thresholds : HasThresholds n
  pub within : IsWithin n 3

check_compilation-IsPlan :
    (n : NetworkNode) (gates : List Gate) (leaves : List Leaf)
    → check_compilation n gates leaves ≡ true
    → IsPlan n gates leaves
unfolding check_compilation
check_compilation-IsPlan n gates leaves h =
    elim (Option-cases (check_subtree gates leaves n 0 0 3)) [
      | inl e ↦ absurd (cc (rw e at h))
      | inr (ends, e) ↦
          let (gate_end, leaf_end) = &&-eq-true _ _ (rw e at h) in
          let c = subtree_sound gates leaves n 0 0 3 ends e in
          record {
            same_gates =
                c.gates_here
                ∙ rw ((==_iff ends.0 (length gates)).0 gate_end, drop-length, append-nil);
            same_leaves =
                c.leaves_here
                ∙ rw ((==_iff ends.1 (length leaves)).0 leaf_end, drop-length, append-nil);
            thresholds = c.thresholds;
            within = c.within;
          }
    ]

IsPlan-check_compilation :
    (n : NetworkNode) (gates : List Gate) (leaves : List Leaf)
    → IsPlan n gates leaves
    → check_compilation n gates leaves ≡ true
unfolding check_compilation
IsPlan-check_compilation n gates leaves plan =
    rw
      (subtree_complete gates leaves n 0 0 3 [] [] plan.thresholds plan.within
        (plan.same_gates ∙ sym (append-nil _)) (plan.same_leaves ∙ sym (append-nil _)))
      (ground (arith, ap length plan.same_gates, length-layout n 0 0, ap length plan.same_leaves))

-- The checker accepts a plan exactly when it is the one that the tree lays out: gates in postorder,
-- leaves in source order, every threshold between one and its number of children, and at most
-- three levels.
pub check_compilation_iff :
    (n : NetworkNode) (gates : List Gate) (leaves : List Leaf)
    → (check_compilation n gates leaves ≡ true) ↔ IsPlan n gates leaves
check_compilation_iff n gates leaves =
    (check_compilation-IsPlan n gates leaves, IsPlan-check_compilation n gates leaves)
