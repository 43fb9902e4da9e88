-- ===== src/Policy/Admission.antt =====
-- `ProductionPolicy::new` of crates/leelo-policy/src/lib.rs admits exactly the policies within the
-- limits, with the plan of their tree.
use leelo.Base.{
  Result-cases, inl, inr, ℕ, ◌+◌, ◌-◌, ◌≤◌, ◌<◌, ◌≡◌, refl, sym, ◌∙◌, ap, subst, true, false, List,
  [], ◌∷◌, arith, length, Result, err, ok, >>=-eq-ok, ok_injective, ltb, ◌==◌, ◌||◌, not, guard,
  ◌↔◌,
}
use leelo.Policy.Tree.{NetworkNode, Nodes, nil, cons, count_nodes, id}
use leelo.Policy.Check.{check_compilation}
use leelo.Policy.Layout.{node_count, leaf_list, layout, roots, HasThresholds, IsWithin, AllWithin}
use leelo.Policy.Compile.{
  Build, Mode, ProductionPolicy, has_id, enter_node, compile_leaf, compile_node, compile_children,
  PolicyError, invalid_compilation, new,
}
use leelo.Policy.Admissible.{
  push_ids, push_providers, built, all_built, all_built-nil, DistinctIds-push_all_ids,
  DistinctProviders-push_all_providers, IsAdmissible,
}
use leelo.Policy.Refusals.{>>=-IsCompilers, compile_node-IsCompilers}
use leelo.Policy.Admitted.{check_compilation_iff}
use leelo.Policy.Compiled.{
  Fits, AllFit, entered, root_index, push_gate-leaf, push_gate-threshold, cons_result,
  compile_node-Fits,
}

enter_node-ok :
    (n : NetworkNode) (depth : ℕ) (b : Build)
    → depth ≤ 4
    → b.count < 31
    → has_id (id n) b.ids ≡ false
    → enter_node n depth b ≡ ok (entered n b)
unfolding enter_node
enter_node-ok n depth b deep room fresh = ground arith

leaf_admitted :
    (i : ℕ) (p : List ℕ) (depth : ℕ) (b : Build)
    → Fits (NetworkNode.leaf i p) depth b
    → compile_node (NetworkNode.leaf i p) depth b
      ≡ ok (root_index (NetworkNode.leaf i p) b, built (NetworkNode.leaf i p) b)
unfolding compile_node push_ids push_providers node_count IsWithin
leaf_admitted i p depth b f =
    rw
      (enter_node-ok (NetworkNode.leaf i p) depth b (omega (arith, f.within))
        (omega (arith, f.size)) f.ids.0)
      (rw (f.providers.0, compile_leaf) (ap ok (push_gate-leaf i p b)))

threshold_AllFit :
    (i required : ℕ) (ns : Nodes) (depth : ℕ) (b : Build)
    → Fits (NetworkNode.threshold i required ns) depth b
    → AllFit ns (depth + 1) (entered (NetworkNode.threshold i required ns) b)
unfolding push_ids push_providers node_count HasThresholds IsWithin
threshold_AllFit i required ns depth b f = record {
  ids = f.ids;
  providers = f.providers;
  size = omega (arith, f.size);
  thresholds = f.thresholds.2;
  within =
      let e : 5 - depth - 1 ≡ 5 - (depth + 1) = omega arith in subst (AllWithin ns) e f.within.1;
}

threshold_admitted :
    (i required : ℕ) (ns : Nodes) (depth : ℕ) (b : Build)
    → Fits (NetworkNode.threshold i required ns) depth b
    → compile_children ns (depth + 1) (entered (NetworkNode.threshold i required ns) b)
      ≡ ok (
        roots ns (length b.gates),
        all_built ns (entered (NetworkNode.threshold i required ns) b),
      )
    → compile_node (NetworkNode.threshold i required ns) depth b
      ≡ ok (
        root_index (NetworkNode.threshold i required ns) b,
        built (NetworkNode.threshold i required ns) b,
      )
unfolding compile_node push_ids push_providers node_count HasThresholds IsWithin
threshold_admitted i required ns depth b f children =
    rw
      (enter_node-ok (NetworkNode.threshold i required ns) depth b (omega (arith, f.within))
        (omega (arith, f.size)) fresh)
      (rw test (rw children (ap ok (push_gate-threshold i required ns b))))
  where
    fresh : has_id i b.ids ≡ false
    fresh = (DistinctIds-push_all_ids ns (i ∷ b.ids) f.ids).0

    test : not (required == 0 || ltb (count_nodes ns) required) ≡ true
    test = ground (arith, f.thresholds)

cons_AllFit :
    (n : NetworkNode) (ns : Nodes) (depth : ℕ) (b : Build)
    → AllFit (cons n ns) depth b
    → Fits n depth b × AllFit ns depth (built n b)
unfolding push_ids push_providers node_count HasThresholds IsWithin
cons_AllFit n ns depth b f = (
  record {
    ids = DistinctIds-push_all_ids ns (push_ids n b.ids) f.ids;
    providers = DistinctProviders-push_all_providers ns (push_providers n b.providers) f.providers;
    size = omega (arith, f.size);
    thresholds = f.thresholds.0;
    within = f.within.0;
  },
  record {
    ids = f.ids;
    providers = f.providers;
    size = omega (arith, f.size);
    thresholds = f.thresholds.1;
    within = f.within.1;
  },
)

cons_admitted :
    (n : NetworkNode) (ns : Nodes) (depth : ℕ) (b : Build)
    → compile_node n depth b ≡ ok (root_index n b, built n b)
    → compile_children ns depth (built n b)
      ≡ ok (roots ns (length (built n b).gates), all_built ns (built n b))
    → compile_children (cons n ns) depth b
      ≡ ok (roots (cons n ns) (length b.gates), all_built (cons n ns) b)
unfolding compile_node
cons_admitted n ns depth b first rest = rw first (rw rest (ap ok (cons_result n ns b)))

nil_admitted :
    (depth : ℕ) (b : Build)
    → compile_children nil depth b ≡ ok (roots nil (length b.gates), all_built nil b)
unfolding compile_node roots
nil_admitted depth b = λ k. ok ([], all_built-nil b k)

mutual
  node_admitted :
      (n : NetworkNode) (depth : ℕ) (b : Build)
      → Fits n depth b
      → compile_node n depth b ≡ ok (root_index n b, built n b)
  node_admitted (NetworkNode.leaf i p) depth b f = leaf_admitted i p depth b f
  node_admitted (NetworkNode.threshold i required ns) depth b f =
      threshold_admitted i required ns depth b f
        (forest_admitted ns (depth + 1) _ (threshold_AllFit i required ns depth b f))

  forest_admitted :
      (ns : Nodes) (depth : ℕ) (b : Build)
      → AllFit ns depth b
      → compile_children ns depth b ≡ ok (roots ns (length b.gates), all_built ns b)
  forest_admitted nil depth b f = nil_admitted depth b
  forest_admitted (cons n ns) depth b f =
      let (here, behind) = cons_AllFit n ns depth b f in
      cons_admitted n ns depth b (node_admitted n depth b here)
        (forest_admitted ns depth (built n b) behind)

-- The compiler's first state.
abbrev start : ℕ → Build
start tpm_node_id = record {
  count = 2;
  ids = tpm_node_id ∷ [];
  providers = [];
  gates = [];
  leaves = [];
}

-- The policy that a tree should be admitted as.
abbrev pub policy_of : Mode → ℕ → NetworkNode → ProductionPolicy
policy_of mode tpm_node_id n = record {
  mode = mode;
  tpm_node_id = tpm_node_id;
  network = n;
  plan = record { gates = layout n 0 0; leaves = leaf_list n };
}

Fits-IsAdmissible :
    (tpm_node_id : ℕ) (n : NetworkNode) → Fits n 2 (start tpm_node_id) → IsAdmissible tpm_node_id n
Fits-IsAdmissible tpm_node_id n f = record {
  ids = f.ids;
  providers = f.providers;
  size = omega (arith, f.size);
  thresholds = f.thresholds;
  within = f.within;
}

IsAdmissible-Fits :
    (tpm_node_id : ℕ) (n : NetworkNode) → IsAdmissible tpm_node_id n → Fits n 2 (start tpm_node_id)
IsAdmissible-Fits tpm_node_id n a = record {
  ids = a.ids;
  providers = a.providers;
  size = omega (arith, a.size);
  thresholds = a.thresholds;
  within = a.within;
}

new_sound :
    (mode : Mode) (tpm_node_id : ℕ) (n : NetworkNode) (p : ProductionPolicy)
    → new mode tpm_node_id n ≡ ok p
    → IsAdmissible tpm_node_id n × (p ≡ policy_of mode tpm_node_id n)
unfolding new
new_sound mode tpm_node_id n p h =
    let (r, h₁, h₂) = >>=-eq-ok (compile_node n 2 (start tpm_node_id)) _ h in
    let (fit, e) =
      compile_node-Fits n 2 (start tpm_node_id) r
        (record { ids = (refl, tt); providers = tt; size = omega arith }) h₁ in
    let (u, h₃, h₄) =
      >>=-eq-ok (guard (check_compilation n r.1.gates r.1.leaves) invalid_compilation) _ h₂ in
    (
      Fits-IsAdmissible tpm_node_id n fit,
      sym (ok_injective h₄)
          ∙ ap
              (λ (z : ℕ × Build). record (policy_of mode tpm_node_id n) {
                plan = record { gates = z.1.gates; leaves = z.1.leaves };
              })
              e,
    )

new_complete :
    (mode : Mode) (tpm_node_id : ℕ) (n : NetworkNode)
    → IsAdmissible tpm_node_id n
    → new mode tpm_node_id n ≡ ok (policy_of mode tpm_node_id n)
unfolding new
new_complete mode tpm_node_id n a =
    rw (node_admitted n 2 (start tpm_node_id) (IsAdmissible-Fits tpm_node_id n a)) (
      rw (
        (check_compilation_iff n (layout n 0 0) (leaf_list n)).1 (record {
          same_gates = refl;
          same_leaves = refl;
          thresholds = a.thresholds;
          within = a.within;
        })))

-- The condition of `new_iff`, for the policies that come after it.
pub new-ok :
    (mode : Mode) (tpm_node_id : ℕ) (n : NetworkNode) (p : ProductionPolicy)
    → (new mode tpm_node_id n ≡ ok p)
      ↔ (IsAdmissible tpm_node_id n × (p ≡ policy_of mode tpm_node_id n))
new-ok mode tpm_node_id n p =
    (new_sound mode tpm_node_id n p, λ h. new_complete mode tpm_node_id n h.0 ∙ ap ok (sym h.1))

new_certified :
    (mode : Mode) (tpm_node_id : ℕ) (n : NetworkNode)
    → ¬ (new mode tpm_node_id n ≡ err invalid_compilation)
unfolding new
new_certified mode tpm_node_id n h = elim (Result-cases (compile_node n 2 (start tpm_node_id))) [
  | inl (e, refused) ↦
      >>=-IsCompilers (compile_node n 2 (start tpm_node_id)) _
        (λ r done. absurd (differ (sym refused ∙ done)))
        (compile_node-IsCompilers n 2 (start tpm_node_id)) h
  | inr (r, done) ↦ absurd (differ' (sym h ∙ admitted r done))
]
  where
    differ :
        {A : Type 0} {e : PolicyError} {a : A} → ¬ (◌≡◌ {A = Result PolicyError A} (err e) (ok a))
    differ g = cc

    differ' : {p : ProductionPolicy} → ¬ (err invalid_compilation ≡ ok p)
    differ' g = cc

    admitted :
        (r : ℕ × Build)
        → compile_node n 2 (start tpm_node_id) ≡ ok r
        → new mode tpm_node_id n ≡ ok (policy_of mode tpm_node_id n)
    admitted r done = new_complete mode tpm_node_id n (
        Fits-IsAdmissible tpm_node_id n
          (compile_node-Fits n 2 (start tpm_node_id) r
            (record { ids = (refl, tt); providers = tt; size = omega arith }) done).0)

-- `ProductionPolicy::new` succeeds exactly on the trees within the limits of a policy, and then
-- returns the tree with the plan that the tree lays out; on no tree does its certificate check
-- refuse what the compiler made, so that it never returns InvalidCompilation.
pub new_iff :
    (mode : Mode) (tpm_node_id : ℕ) (n : NetworkNode)
    → ((p : ProductionPolicy)
        → (new mode tpm_node_id n ≡ ok p)
          ↔ (IsAdmissible tpm_node_id n × (p ≡ policy_of mode tpm_node_id n)))
      × (¬ (new mode tpm_node_id n ≡ err invalid_compilation))
new_iff mode tpm_node_id n = (new-ok mode tpm_node_id n, new_certified mode tpm_node_id n)
