-- ===== src/Policy/Semantics.antt =====
-- Evaluating a laid-out plan gate by gate gives what the tree decides (the postorder evaluator of
-- crates/leelo-policy/src/verified.rs against direct evaluation).
use leelo.Base.{
  ℕ, suc, ◌+◌, ◌-◌, ◌≡◌, refl, sym, ◌∙◌, ap, Bool, true, List, [], ◌∷◌, ◌++◌, arith, if◌then◌else◌,
  length, get_elem?, some, append_assoc, append-nil, length-append, get_elem?-append_length,
  get_last?-append_one, lt→ltb, get_elem?-some_lt,
}
use leelo.Policy.Tree.{NetworkNode, Nodes, nil, cons}
use leelo.Policy.Verified.{
  Gate, is_set, or_false, count_children, evaluate_gate, evaluate_loop, last_value,
  evaluate_network,
}
use leelo.Policy.Layout.{
  node_count, leaf_count, forest_nodes, roots, layout, forest_layout, length-roots, source_value,
  source_successes,
}

-- The values of a subtree's gates in postorder, without its root's; and of a forest's.
mutual
  inner : NetworkNode → List Bool → ℕ → List Bool
  inner (NetworkNode.leaf id provider_id) responses l = []
  inner (NetworkNode.threshold id required children) responses l = trace children responses l

  trace : Nodes → List Bool → ℕ → List Bool
  trace nil responses l = []
  trace (cons n ns) responses l =
      inner n responses l ++ source_value n responses l ∷ trace ns responses (l + leaf_count n)

mutual
  unfolding inner node_count

  length-inner :
      (n : NetworkNode) (rs : List Bool) (l : ℕ) → suc (length (inner n rs l)) ≡ node_count n
  length-inner (NetworkNode.leaf id provider_id) rs l = refl
  length-inner (NetworkNode.threshold id required children) rs l =
      omega (arith, length-trace children rs l)

  length-trace : (ns : Nodes) (rs : List Bool) (l : ℕ) → length (trace ns rs l) ≡ forest_nodes ns
  length-trace nil rs l = refl
  length-trace (cons n ns) rs l = omega (
    arith,
    length-append (inner n rs l) (source_value n rs l ∷ trace ns rs (l + leaf_count n)),
    length-inner n rs l,
    length-trace ns rs (l + leaf_count n),
  )

-- The values before a forest's second tree.
abbrev extend : NetworkNode → List Bool → List Bool → ℕ → List Bool
extend n before rs l = (before ++ inner n rs l) ++ source_value n rs l ∷ []

length-extend :
    (n : NetworkNode) (before rs : List Bool) (l : ℕ)
    → length (extend n before rs l) ≡ length before + node_count n
length-extend n before rs l = omega (
  arith,
  length-append before (inner n rs l),
  length-append (before ++ inner n rs l) (source_value n rs l ∷ []),
  length-inner n rs l,
)

regroup :
    (n : NetworkNode) (ns : Nodes) (before rs : List Bool) (l : ℕ)
    → extend n before rs l ++ trace ns rs (l + leaf_count n) ≡ before ++ trace (cons n ns) rs l
unfolding trace
regroup n ns before rs l = simp append_assoc

count_children-cons :
    (c : ℕ) (cs : List ℕ) (values : List Bool) (b : Bool) (s : ℕ) (v : Bool)
    → get_elem? values c ≡ some b
    → count_children (c ∷ cs) values s v ≡ count_children cs values (if b then s + 1 else s) v
unfolding count_children
count_children-cons c cs values b s v h =
    rw (lt→ltb c (length values) (get_elem?-some_lt values c h)) (rw (h, is_set))

-- With the children's values behind `before`, the loop over the roots counts the tree's successes.
count_children-roots :
    (ns : Nodes) (before values rs : List Bool) (l g s : ℕ) (v : Bool)
    → length before ≡ g
    → values ≡ before ++ trace ns rs l
    → count_children (roots ns g) values s v ≡ (s + source_successes ns rs l, v)
unfolding count_children roots trace source_successes
count_children-roots nil before values rs l g s v e split = ground arith
count_children-roots (cons n ns) before values rs l g s v e split =
    count_children-cons (g + node_count n - 1) (roots ns (g + node_count n)) values root s v read
    ∙ count_children-roots ns (extend n before rs l) values rs (l + leaf_count n) (g + node_count n)
        (if root then s + 1 else s) v after (split ∙ sym (regroup n ns before rs l))
    ∙ ground arith
  where
    root : Bool
    root = source_value n rs l

    index : length (before ++ inner n rs l) ≡ g + node_count n - 1
    index = omega (arith, length-append before (inner n rs l), length-inner n rs l)

    read : get_elem? values (g + node_count n - 1) ≡ some root
    read =
        rw (split, ← regroup n ns before rs l, append_assoc, ← index)
          (get_elem?-append_length (before ++ inner n rs l) root _)

    after : length (extend n before rs l) ≡ g + node_count n
    after = rw e at (length-extend n before rs l)

-- The gate of a threshold, evaluated after its children, is the threshold's value.
evaluate_gate-root :
    (required id : ℕ) (ns : Nodes) (before rs : List Bool) (l : ℕ)
    → evaluate_gate
        (Gate.threshold required (roots ns (length before)))
        (before ++ trace ns rs l)
        rs
      ≡ source_value (NetworkNode.threshold id required ns) rs l
unfolding evaluate_gate source_value
evaluate_gate-root required id ns before rs l =
    rw
      (
        length-roots ns (length before),
        count_children-roots ns before (before ++ trace ns rs l) rs l (length before) 0 true refl
            refl,
      )
      (ground arith)

evaluate_gate-leaf :
    (id l : ℕ) (provider_id : List ℕ) (before rs : List Bool)
    → evaluate_gate (Gate.leaf l) before rs ≡ source_value (NetworkNode.leaf id provider_id) rs l
unfolding evaluate_gate source_value
evaluate_gate-leaf id l provider_id before rs = refl

mutual
  unfolding layout inner node_count evaluate_loop

  loop-layout :
      (n : NetworkNode) (before rs : List Bool) (l : ℕ) (rest : List Gate)
      → evaluate_loop (layout n (length before) l ++ rest) before rs
        ≡ evaluate_loop rest ((before ++ inner n rs l) ++ source_value n rs l ∷ []) rs
  loop-layout (NetworkNode.leaf id provider_id) before rs l rest =
      rw (append-nil, evaluate_gate-leaf id l provider_id before rs)
  loop-layout (NetworkNode.threshold id required children) before rs l rest =
      rw (append_assoc (forest_layout children (length before) l) _ rest) (
        loop-forest_layout children before rs l
          (Gate.threshold required (roots children (length before)) ∷ rest)
        ∙ rw (evaluate_gate-root required id children before rs l))

  loop-forest_layout :
      (ns : Nodes) (before rs : List Bool) (l : ℕ) (rest : List Gate)
      → evaluate_loop (forest_layout ns (length before) l ++ rest) before rs
        ≡ evaluate_loop rest (before ++ trace ns rs l) rs
  loop-forest_layout nil before rs l rest = rw append-nil
  loop-forest_layout (cons n ns) before rs l rest =
      rw (append_assoc (layout n (length before) l) _ rest) (
        loop-layout n before rs l _
        ∙ rw (← length-extend n before rs l)
            (loop-forest_layout ns (extend n before rs l) rs _ rest)
        ∙ ap (λ vs. evaluate_loop rest vs rs) (regroup n ns before rs l))

-- A laid-out plan evaluates to the tree's own value, for every assignment of responses.
pub evaluate_network-layout :
    (n : NetworkNode) (rs : List Bool) → evaluate_network (layout n 0 0) rs ≡ source_value n rs 0
unfolding evaluate_network evaluate_loop
evaluate_network-layout n rs =
    ap last_value whole ∙ ap or_false (get_last?-append_one (inner n rs 0) (source_value n rs 0))
  where
    whole : evaluate_loop (layout n 0 0) [] rs ≡ inner n rs 0 ++ source_value n rs 0 ∷ []
    whole = rw (append-nil (layout n 0 0)) at (loop-layout n [] rs 0 [])
