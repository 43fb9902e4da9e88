-- ===== src/Policy/Certificate.antt =====
-- What the certificate checker of crates/leelo-policy/src/verified_compile.rs accepts.
use leelo.Base.{
  ℕ, ◌+◌, ◌-◌, ◌≤◌, ◌<◌, ◌≡◌, refl, sym, ◌∙◌, ap, subst, List, ◌∷◌, ◌++◌, Option, none, some, arith,
  length, get_elem?, drop, append_assoc, length-append, drop_of_get_elem?, some_injective,
}
use leelo.Policy.Tree.{NetworkNode, Nodes, nil, cons, count_nodes}
use leelo.Policy.Verified.{Gate}
use leelo.Policy.Check.{
  Leaf, Ends, same_provider, check_root, check_leaf, check_subtree, check_children,
}
use leelo.Policy.Check.Gates.{is_leaf_gate→eq, is_leaf_at→eq, is_threshold_gate→eq, bind-eq-some}
use leelo.Policy.Layout.{
  node_count, leaf_list, leaf_count, forest_nodes, forest_leaves, roots, layout, forest_layout,
  HasThresholds, AllThresholds, IsWithin, AllWithin,
}

module _ (gates : List Gate) (leaves : List Leaf) where
  -- The subtree's layout and leaves stand in the plan at `g` and `l`, and end at `ends`.
  pub record Certified (n : NetworkNode) (g l d : ℕ) (ends : Ends) : Type 0 where
    pub gate_end : ends.0 ≡ g + node_count n
    pub leaf_end : ends.1 ≡ l + leaf_count n
    pub gates_here : drop g gates ≡ layout n g l ++ drop ends.0 gates
    pub leaves_here : drop l leaves ≡ leaf_list n ++ drop ends.1 leaves
    pub thresholds : HasThresholds n
    pub within : IsWithin n d

  pub record AllCertified (ns : Nodes) (g l d : ℕ) (ends : Ends) (expected : List ℕ) : Type 0 where
    pub gate_end : ends.0 ≡ g + forest_nodes ns
    pub leaf_end : ends.1 ≡ l + length (forest_leaves ns)
    pub gates_here : drop g gates ≡ forest_layout ns g l ++ drop ends.0 gates
    pub leaves_here : drop l leaves ≡ forest_leaves ns ++ drop ends.1 leaves
    pub edges : expected ≡ roots ns g
    pub thresholds : AllThresholds ns
    pub within : AllWithin ns d

  check_leaf-eq-some :
      (id : ℕ) (p : List ℕ) (g l : ℕ) (ends : Ends)
      → check_leaf gates leaves id p g l ≡ some ends
      → (get_elem? gates g ≡ some (Gate.leaf l))
        × (get_elem? leaves l ≡ some (id, p))
        × (ends ≡ (g + 1, l + 1))
  unfolding check_leaf same_provider
  check_leaf-eq-some id p g l ends h =
      ground (arith, is_leaf_gate→eq (get_elem? gates g) l, is_leaf_at→eq (get_elem? leaves l) id p)

  check_root-eq-some :
      (required : ℕ) (checked : Option (Ends × List ℕ)) (ends : Ends)
      → check_root gates leaves required checked ≡ some ends
      → (gc : ℕ) × (lc : ℕ) × (expected : List ℕ) × (checked ≡ some ((gc, lc), expected))
        × (get_elem? gates gc ≡ some (Gate.threshold required expected))
        × (ends ≡ (gc + 1, lc))
  unfolding check_root
  check_root-eq-some required none ends h = cc
  check_root-eq-some required (some ((gc, lc), expected)) ends h = (
    gc,
    lc,
    expected,
    refl,
    ground (arith, is_threshold_gate→eq (get_elem? gates gc) required expected),
    ground (arith, is_threshold_gate→eq (get_elem? gates gc) required expected),
  )

  -- The guards of the source, read off a check that passed.
  check_subtree-leaf :
      (id : ℕ) (p : List ℕ) (g l d : ℕ) (ends : Ends)
      → check_subtree gates leaves (NetworkNode.leaf id p) g l d ≡ some ends
      → (0 < d) × (check_leaf gates leaves id p g l ≡ some ends)
  unfolding check_subtree
  check_subtree-leaf id p g l d ends h = ground arith

  check_subtree-threshold :
      (id required : ℕ) (children : Nodes) (g l d : ℕ) (ends : Ends)
      → check_subtree gates leaves (NetworkNode.threshold id required children) g l d ≡ some ends
      → (0 < d)
        × (0 < required)
        × (required ≤ count_nodes children)
        × (check_root gates leaves required (check_children gates leaves children g l (d - 1))
            ≡ some ends)
  unfolding check_subtree
  check_subtree-threshold id required children g l d ends h = ground arith

  leaf_sound :
      (id : ℕ) (p : List ℕ) (g l d : ℕ) (ends : Ends)
      → check_subtree gates leaves (NetworkNode.leaf id p) g l d ≡ some ends
      → Certified (NetworkNode.leaf id p) g l d ends
  unfolding node_count leaf_list layout HasThresholds IsWithin
  leaf_sound id p g l d ends h =
      let (deep, passed) = check_subtree-leaf id p g l d ends h in
      let (gate, leaf, e) = check_leaf-eq-some id p g l ends passed in
      record {
        gate_end = ap (λ x. x.0) e;
        leaf_end = ap (λ x. x.1) e;
        gates_here = rw e (drop_of_get_elem? gates g gate);
        leaves_here = rw e (drop_of_get_elem? leaves l leaf);
        thresholds = tt;
        within = deep;
      }

  -- A root gate behind a certified forest.
  root_sound :
      (id required : ℕ) (ns : Nodes) (g l d gc lc : ℕ) (expected : List ℕ)
      → 0 < d
      → 0 < required
      → required ≤ count_nodes ns
      → get_elem? gates gc ≡ some (Gate.threshold required expected)
      → AllCertified ns g l (d - 1) (gc, lc) expected
      → Certified (NetworkNode.threshold id required ns) g l d (gc + 1, lc)
  unfolding node_count leaf_list layout HasThresholds IsWithin
  root_sound id required ns g l d gc lc expected deep pos fits gate all = record {
    gate_end = omega (arith, all.gate_end);
    leaf_end = all.leaf_end;
    gates_here =
        rw (append_assoc, ← all.edges)
          (all.gates_here
            ∙ ap (λ gs. forest_layout ns g l ++ gs) (drop_of_get_elem? gates gc gate));
    leaves_here = all.leaves_here;
    thresholds = (pos, fits, all.thresholds);
    within = (deep, all.within);
  }

  forest_nil_sound :
      (g l d : ℕ) (ends : Ends) (expected : List ℕ)
      → check_children gates leaves nil g l d ≡ some (ends, expected)
      → AllCertified nil g l d ends expected
  unfolding check_subtree node_count leaf_list layout roots HasThresholds IsWithin
  forest_nil_sound g l d ends expected h =
      subst (λ (r : Ends × List ℕ). AllCertified nil g l d r.0 r.1) (some_injective h)
        record {
          gate_end = omega arith;
          leaf_end = omega arith;
          gates_here = refl;
          leaves_here = refl;
          edges = refl;
          thresholds = tt;
          within = tt;
        }

  forest_cons_sound :
      (n : NetworkNode) (ns : Nodes) (g l d gc lc : ℕ) (ends : Ends) (expected : List ℕ)
      → Certified n g l d (gc, lc)
      → AllCertified ns gc lc d ends expected
      → AllCertified (cons n ns) g l d ends ((gc - 1) ∷ expected)
  unfolding node_count leaf_list layout roots HasThresholds IsWithin
  forest_cons_sound n ns g l d gc lc ends expected first rest = record {
    gate_end = omega (arith, first.gate_end, rest.gate_end);
    leaf_end =
        omega
          (arith, first.leaf_end, rest.leaf_end, length-append (leaf_list n) (forest_leaves ns));
    gates_here =
        rw (append_assoc, ← first.gate_end, ← first.leaf_end)
          (first.gates_here ∙ ap (λ gs. layout n g l ++ gs) rest.gates_here);
    leaves_here =
        rw append_assoc (first.leaves_here ∙ ap (λ ls. leaf_list n ++ ls) rest.leaves_here);
    edges = rw (rest.edges, first.gate_end);
    thresholds = (first.thresholds, rest.thresholds);
    within = (first.within, rest.within);
  }

  mutual
    unfolding check_subtree node_count leaf_list layout roots HasThresholds IsWithin

    pub subtree_sound :
        (n : NetworkNode) (g l d : ℕ) (ends : Ends)
        → check_subtree gates leaves n g l d ≡ some ends
        → Certified n g l d ends
    subtree_sound (NetworkNode.leaf id p) g l d ends h = leaf_sound id p g l d ends h
    subtree_sound (NetworkNode.threshold id required children) g l d ends h =
        let (deep, pos, fits, passed) = check_subtree-threshold id required children g l d ends h in
        let (gc, lc, expected, checked, gate, e) =
          check_root-eq-some required (check_children gates leaves children g l (d - 1)) ends
            passed in
        subst (Certified (NetworkNode.threshold id required children) g l d) (sym e) (
          root_sound id required children g l d gc lc expected deep pos fits gate
            (forest_sound children g l (d - 1) (gc, lc) expected checked))

    forest_sound :
        (ns : Nodes) (g l d : ℕ) (ends : Ends) (expected : List ℕ)
        → check_children gates leaves ns g l d ≡ some (ends, expected)
        → AllCertified ns g l d ends expected
    forest_sound nil g l d ends expected h = forest_nil_sound g l d ends expected h
    forest_sound (cons n ns) g l d ends expected h =
        let (first, checked, more) = bind-eq-some (check_subtree gates leaves n g l d) _ h in
        let (others, checked', done) =
          bind-eq-some (check_children gates leaves ns first.0 first.1 d) _ more in
        subst (λ (r : Ends × List ℕ). AllCertified (cons n ns) g l d r.0 r.1) (some_injective done)
          (forest_cons_sound n ns g l d first.0 first.1 others.0 others.1
            (subtree_sound n g l d first checked)
            (forest_sound ns first.0 first.1 d others.0 others.1 checked'))
