-- ===== src/Policy/Compiled.antt =====
-- The policy compiler of crates/leelo-policy/src/lib.rs against the layout of the tree: what it
-- builds when it succeeds.
use leelo.Base.{
  ℕ, suc, ◌+◌, ◌-◌, ◌≤◌, ◌<◌, ◌≡◌, refl, sym, ◌∙◌, ap, subst, false, List, [], ◌∷◌, ◌++◌, arith,
  length, append_assoc, length-append, ok, >>=-eq-ok, ok_injective, ltb, ◌==◌, ◌||◌, not, guard,
}
use leelo.Policy.Tree.{NetworkNode, Nodes, nil, cons, count_nodes, id}
use leelo.Policy.Verified.{Gate}
use leelo.Policy.Layout.{
  node_count, forest_nodes, leaf_list, layout, forest_layout, roots, HasThresholds, AllThresholds,
  IsWithin, AllWithin, length-layout, length-forest_layout,
}
use leelo.Policy.Compile.{
  Build, has_id, has_provider, push_gate, enter_node, compile_leaf, compile_node, compile_children,
  invalid_threshold,
}
use leelo.Policy.Admissible.{
  push_ids, push_all_ids, push_providers, push_all_providers, DistinctIds, DistinctProviders, built,
  all_built, all_built-nil, all_built-cons, Build-ext,
}

-- The limits, for a tree that is compiled at a depth and in a state.
pub record Fits (n : NetworkNode) (depth : ℕ) (b : Build) : Type 0 where
  pub ids : DistinctIds (push_ids n b.ids)
  pub providers : DistinctProviders (push_providers n b.providers)
  pub size : b.count + node_count n ≤ 31
  pub thresholds : HasThresholds n
  pub within : IsWithin n (5 - depth)

pub record AllFit (ns : Nodes) (depth : ℕ) (b : Build) : Type 0 where
  pub ids : DistinctIds (push_all_ids ns b.ids)
  pub providers : DistinctProviders (push_all_providers ns b.providers)
  pub size : b.count + forest_nodes ns ≤ 31
  pub thresholds : AllThresholds ns
  pub within : AllWithin ns (5 - depth)

-- What holds between two calls of the compiler.
pub record IsSound (b : Build) : Type 0 where
  pub ids : DistinctIds b.ids
  pub providers : DistinctProviders b.providers
  pub size : b.count ≤ 31

abbrev pub entered : NetworkNode → Build → Build
entered n b = record b { count = b.count + 1; ids = id n ∷ b.ids }

abbrev pub root_index : NetworkNode → Build → ℕ
root_index n b = length b.gates + node_count n - 1

pub enter_node-eq-ok :
    (n : NetworkNode) (depth : ℕ) (b b₁ : Build)
    → enter_node n depth b ≡ ok b₁
    → (depth ≤ 4) × (b.count < 31) × (has_id (id n) b.ids ≡ false) × (b₁ ≡ entered n b)
unfolding enter_node
enter_node-eq-ok n depth b b₁ h = ground arith

pub compile_leaf-eq-ok :
    (i : ℕ) (p : List ℕ) (b : Build) (r : ℕ × Build)
    → compile_leaf i p b ≡ ok r
    → (has_provider p b.providers ≡ false)
      × (r
          ≡ push_gate
              (Gate.leaf (length b.leaves))
              (record b { providers = p ∷ b.providers; leaves = b.leaves ++ (i, p) ∷ [] }))
unfolding compile_leaf
compile_leaf-eq-ok i p b r h = ground arith

-- The gate that is pushed last makes the tree's state out of that of its parts.
pub push_gate-leaf :
    (i : ℕ) (p : List ℕ) (b : Build)
    → push_gate (Gate.leaf (length b.leaves)) (record b {
      count = b.count + 1;
      ids = i ∷ b.ids;
      providers = p ∷ b.providers;
      leaves = b.leaves ++ (i, p) ∷ [];
    })
      ≡ (root_index (NetworkNode.leaf i p) b, built (NetworkNode.leaf i p) b)
unfolding push_gate node_count push_ids push_providers layout leaf_list
push_gate-leaf i p b =
    let index : length b.gates ≡ length b.gates + 1 - 1 = omega arith in
    λ k. (index k, built (NetworkNode.leaf i p) b)

pub push_gate-threshold :
    (i required : ℕ) (ns : Nodes) (b : Build)
    → push_gate
        (Gate.threshold required (roots ns (length b.gates)))
        (all_built ns (entered (NetworkNode.threshold i required ns) b))
      ≡ (
        root_index (NetworkNode.threshold i required ns) b,
        built (NetworkNode.threshold i required ns) b,
      )
unfolding push_gate node_count push_ids push_providers layout leaf_list
push_gate-threshold i required ns b =
    let fl = forest_layout ns (length b.gates) (length b.leaves) in
    let index : length (b.gates ++ fl) ≡ length b.gates + suc (forest_nodes ns) - 1 = omega (
      arith,
      length-append b.gates fl,
      length-forest_layout ns (length b.gates) (length b.leaves),
    ) in
    let state =
      Build-ext {b = built (NetworkNode.threshold i required ns) b} (omega arith) refl refl
        (append_assoc b.gates fl _) refl in
    λ k. (index k, state k)

leaf_compiled :
    (i : ℕ) (p : List ℕ) (depth : ℕ) (b : Build) (r : ℕ × Build)
    → IsSound b
    → compile_node (NetworkNode.leaf i p) depth b ≡ ok r
    → Fits (NetworkNode.leaf i p) depth b
      × (r ≡ (root_index (NetworkNode.leaf i p) b, built (NetworkNode.leaf i p) b))
unfolding compile_node
leaf_compiled i p depth b r s h =
    let (b₁, h₁, h₂) = >>=-eq-ok (enter_node (NetworkNode.leaf i p) depth b) _ h in
    let (deep, room, fresh, e) = enter_node-eq-ok (NetworkNode.leaf i p) depth b b₁ h₁ in
    let (free, result) =
      compile_leaf-eq-ok i p (entered (NetworkNode.leaf i p) b) r
        (subst (λ z. compile_leaf i p z ≡ ok r) e h₂) in
    (
      record {
        ids = unfold push_ids in (fresh, s.ids);
        providers = unfold push_providers in (free, s.providers);
        size = unfold node_count in omega arith;
        thresholds = unfold HasThresholds in tt;
        within = unfold IsWithin in omega arith;
      },
      result ∙ push_gate-leaf i p b,
    )

threshold_compiled :
    (i required : ℕ) (ns : Nodes) (depth : ℕ) (b : Build) (r : ℕ × Build)
    → compile_node (NetworkNode.threshold i required ns) depth b ≡ ok r
    → (depth ≤ 4)
      × (b.count < 31)
      × (has_id i b.ids ≡ false)
      × (0 < required)
      × (required ≤ count_nodes ns)
      × (q : List ℕ × Build) × (compile_children ns
            (depth + 1)
            (entered (NetworkNode.threshold i required ns) b)
          ≡ ok q)
      × (r ≡ push_gate (Gate.threshold required q.0) q.1)
unfolding compile_node
threshold_compiled i required ns depth b r h =
    let (b₁, h₁, h₂) = >>=-eq-ok (enter_node (NetworkNode.threshold i required ns) depth b) _ h in
    let (u, h₃, h₄) =
      >>=-eq-ok (guard (not (required == 0 || ltb (count_nodes ns) required)) invalid_threshold) _
        h₂ in
    let (q, h₅, h₆) = >>=-eq-ok (compile_children ns (depth + 1) b₁) _ h₄ in
    let (deep, room, fresh, e) =
      enter_node-eq-ok (NetworkNode.threshold i required ns) depth b b₁ h₁ in
    (
      deep,
      room,
      fresh,
      ground arith,
      ground arith,
      q,
      subst (λ z. compile_children ns (depth + 1) z ≡ ok q) e h₅,
      sym (ok_injective h₆),
    )

-- The limits and the result of a threshold, from those of its children.
threshold-Fits :
    (i required : ℕ) (ns : Nodes) (depth : ℕ) (b : Build)
    → depth ≤ 4
    → 0 < required
    → required ≤ count_nodes ns
    → AllFit ns (depth + 1) (entered (NetworkNode.threshold i required ns) b)
    → Fits (NetworkNode.threshold i required ns) depth b
unfolding push_ids push_providers node_count HasThresholds IsWithin
threshold-Fits i required ns depth b deep pos fits all = record {
  ids = all.ids;
  providers = all.providers;
  size = omega (arith, all.size);
  thresholds = (pos, fits, all.thresholds);
  within =
      let e : 5 - (depth + 1) ≡ 5 - depth - 1 = omega arith in
      (omega arith, subst (AllWithin ns) e all.within);
}

abbrev Compiles : NetworkNode → Type 0
Compiles n =
    (depth : ℕ) (b : Build) (r : ℕ × Build)
    → IsSound b
    → compile_node n depth b ≡ ok r
    → Fits n depth b × (r ≡ (root_index n b, built n b))

abbrev AllCompile : Nodes → Type 0
AllCompile ns =
    (depth : ℕ) (b : Build) (r : List ℕ × Build)
    → IsSound b
    → compile_children ns depth b ≡ ok r
    → AllFit ns depth b × (r ≡ (roots ns (length b.gates), all_built ns b))

threshold_Compiles :
    (i required : ℕ) (ns : Nodes) → AllCompile ns → Compiles (NetworkNode.threshold i required ns)
threshold_Compiles i required ns all depth b r s h =
    let (deep, room, fresh, pos, fits, q, checked, result) =
      threshold_compiled i required ns depth b r h in
    let (fit, e) =
      all (depth + 1) (entered (NetworkNode.threshold i required ns) b) q
        (record { ids = (fresh, s.ids); providers = s.providers; size = omega arith }) checked in
    (
      threshold-Fits i required ns depth b deep pos fits fit,
      result
          ∙ ap (λ (z : List ℕ × Build). push_gate (Gate.threshold required z.0) z.1) e
          ∙ push_gate-threshold i required ns b,
    )

nil_AllCompile : AllCompile nil
unfolding compile_node push_ids push_providers node_count HasThresholds IsWithin roots
nil_AllCompile depth b r s h = (
  record {
    ids = s.ids;
    providers = s.providers;
    size = omega (arith, s.size);
    thresholds = tt;
    within = tt;
  },
  sym (ok_injective h) ∙ (λ k. ([], all_built-nil b k)),
)

-- A tree and the forest behind it make up one forest.
pub cons_result :
    (n : NetworkNode) (ns : Nodes) (b : Build)
    → ◌≡◌ {A = List ℕ × Build}
        (root_index n b ∷ roots ns (length (built n b).gates), all_built ns (built n b))
        (roots (cons n ns) (length b.gates), all_built (cons n ns) b)
unfolding roots
cons_result n ns b =
    let l = layout n (length b.gates) (length b.leaves) in
    let moved : length (b.gates ++ l) ≡ length b.gates + node_count n =
      omega (arith, length-append b.gates l, length-layout n (length b.gates) (length b.leaves)) in
    λ k. (root_index n b ∷ roots ns (moved k), all_built-cons n ns b k)

cons_AllCompile :
    (n : NetworkNode) (ns : Nodes) → Compiles n → AllCompile ns → AllCompile (cons n ns)
unfolding compile_node push_ids push_providers node_count HasThresholds IsWithin roots
cons_AllCompile n ns first rest depth b r s h =
    let (q, h₁, h₂) = >>=-eq-ok (compile_node n depth b) _ h in
    let (fit, e) = first depth b q s h₁ in
    let (q', h₃, h₄) = >>=-eq-ok (compile_children ns depth q.1) _ h₂ in
    let s' : IsSound (built n b) = record {
      ids = fit.ids;
      providers = fit.providers;
      size = fit.size;
    } in
    let (fits, e') =
      rest depth (built n b) q' s'
        (subst (λ (z : ℕ × Build). compile_children ns depth z.1 ≡ ok q') e h₃) in
    (
      record {
        ids = fits.ids;
        providers = fits.providers;
        size = omega (arith, fits.size);
        thresholds = (fit.thresholds, fits.thresholds);
        within = (fit.within, fits.within);
      },
      sym (ok_injective h₄) ∙ (λ k. ((e k).0 ∷ (e' k).0, (e' k).1)) ∙ cons_result n ns b,
    )

mutual
  node_Compiles : (n : NetworkNode) → Compiles n
  node_Compiles (NetworkNode.leaf i p) = leaf_compiled i p
  node_Compiles (NetworkNode.threshold i required ns) =
      threshold_Compiles i required ns (forest_Compiles ns)

  forest_Compiles : (ns : Nodes) → AllCompile ns
  forest_Compiles nil = nil_AllCompile
  forest_Compiles (cons n ns) = cons_AllCompile n ns (node_Compiles n) (forest_Compiles ns)

-- A compilation that succeeds was within the limits, appended the tree's layout and leaves to the
-- plan, and returned the position of the tree's root.
pub compile_node-Fits :
    (n : NetworkNode) (depth : ℕ) (b : Build) (r : ℕ × Build)
    → IsSound b
    → compile_node n depth b ≡ ok r
    → Fits n depth b × (r ≡ (root_index n b, built n b))
compile_node-Fits = node_Compiles
