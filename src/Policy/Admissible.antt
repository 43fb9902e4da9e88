-- ===== src/Policy/Admissible.antt =====
-- Which policies `ProductionPolicy::new` of crates/leelo-policy/src/lib.rs is meant to admit, and
-- what it should build for them.
use leelo.Base.{
  ℕ, ◌+◌, ◌≤◌, ◌≡◌, refl, sym, false, List, [], ◌∷◌, ◌++◌, arith, length, append_assoc, append-nil,
  length-append,
}
use leelo.Policy.Tree.{NetworkNode, Nodes, nil, cons}
use leelo.Policy.Layout.{
  node_count, forest_nodes, leaf_list, forest_leaves, layout, forest_layout, HasThresholds,
  IsWithin, length-layout,
}
use leelo.Policy.Compile.{Build, has_id, has_provider, max_nodes}

-- The identifiers of a tree in front of those in `acc`, the last visited first.
unfoldable mutual
  pub push_ids : NetworkNode → List ℕ → List ℕ
  push_ids (NetworkNode.leaf i p) acc = i ∷ acc
  push_ids (NetworkNode.threshold i required children) acc = push_all_ids children (i ∷ acc)

  pub push_all_ids : Nodes → List ℕ → List ℕ
  push_all_ids nil acc = acc
  push_all_ids (cons n ns) acc = push_all_ids ns (push_ids n acc)

-- The providers of a tree's leaves, in the same order.
unfoldable mutual
  pub push_providers : NetworkNode → List (List ℕ) → List (List ℕ)
  push_providers (NetworkNode.leaf i p) acc = p ∷ acc
  push_providers (NetworkNode.threshold i required children) acc = push_all_providers children acc

  pub push_all_providers : Nodes → List (List ℕ) → List (List ℕ)
  push_all_providers nil acc = acc
  push_all_providers (cons n ns) acc = push_all_providers ns (push_providers n acc)

abbrev pub DistinctIds : List ℕ → Type 0
DistinctIds [] = Unit
DistinctIds (x ∷ xs) = (has_id x xs ≡ false) × DistinctIds xs

abbrev pub DistinctProviders : List (List ℕ) → Type 0
DistinctProviders [] = Unit
DistinctProviders (x ∷ xs) = (has_provider x xs ≡ false) × DistinctProviders xs

-- The limits of a policy: no identifier twice, that of the TPM included, no provider twice, 31 nodes
-- with the implicit root and the TPM node, three levels below the root, and thresholds in range.
pub record IsAdmissible (tpm_node_id : ℕ) (n : NetworkNode) : Type 0 where
  pub ids : DistinctIds (push_ids n (tpm_node_id ∷ []))
  pub providers : DistinctProviders (push_providers n [])
  pub size : node_count n + 2 ≤ max_nodes
  pub thresholds : HasThresholds n
  pub within : IsWithin n 3

mutual
  unfolding push_ids

  ids_tail : (n : NetworkNode) (acc : List ℕ) → DistinctIds (push_ids n acc) → DistinctIds acc
  ids_tail (NetworkNode.leaf i p) acc h = h.1
  ids_tail (NetworkNode.threshold i required children) acc h = (all_ids_tail children (i ∷ acc) h).1

  all_ids_tail : (ns : Nodes) (acc : List ℕ) → DistinctIds (push_all_ids ns acc) → DistinctIds acc
  all_ids_tail nil acc h = h
  all_ids_tail (cons n ns) acc h = ids_tail n acc (all_ids_tail ns (push_ids n acc) h)

pub DistinctIds-push_all_ids :
    (ns : Nodes) (acc : List ℕ) → DistinctIds (push_all_ids ns acc) → DistinctIds acc
DistinctIds-push_all_ids = all_ids_tail

mutual
  unfolding push_providers

  providers_tail :
      (n : NetworkNode) (acc : List (List ℕ))
      → DistinctProviders (push_providers n acc)
      → DistinctProviders acc
  providers_tail (NetworkNode.leaf i p) acc h = h.1
  providers_tail (NetworkNode.threshold i required children) acc h =
      all_providers_tail children acc h

  all_providers_tail :
      (ns : Nodes) (acc : List (List ℕ))
      → DistinctProviders (push_all_providers ns acc)
      → DistinctProviders acc
  all_providers_tail nil acc h = h
  all_providers_tail (cons n ns) acc h =
      providers_tail n acc (all_providers_tail ns (push_providers n acc) h)

pub DistinctProviders-push_all_providers :
    (ns : Nodes) (acc : List (List ℕ))
    → DistinctProviders (push_all_providers ns acc)
    → DistinctProviders acc
DistinctProviders-push_all_providers = all_providers_tail

pub Build-ext :
    {a b : Build}
    → a.count ≡ b.count
    → a.ids ≡ b.ids
    → a.providers ≡ b.providers
    → a.gates ≡ b.gates
    → a.leaves ≡ b.leaves
    → a ≡ b
Build-ext c i p g l =
    λ k. record { count = c k; ids = i k; providers = p k; gates = g k; leaves = l k }

-- The compiler's state after a tree, and after a forest.
abbrev pub built : NetworkNode → Build → Build
built n b = record {
  count = b.count + node_count n;
  ids = push_ids n b.ids;
  providers = push_providers n b.providers;
  gates = b.gates ++ layout n (length b.gates) (length b.leaves);
  leaves = b.leaves ++ leaf_list n;
}

abbrev pub all_built : Nodes → Build → Build
all_built ns b = record {
  count = b.count + forest_nodes ns;
  ids = push_all_ids ns b.ids;
  providers = push_all_providers ns b.providers;
  gates = b.gates ++ forest_layout ns (length b.gates) (length b.leaves);
  leaves = b.leaves ++ forest_leaves ns;
}

pub all_built-nil : (b : Build) → b ≡ all_built nil b
unfolding push_ids push_providers node_count layout leaf_list
all_built-nil b =
    Build-ext (omega arith) refl refl (sym (append-nil b.gates)) (sym (append-nil b.leaves))

pub all_built-cons :
    (n : NetworkNode) (ns : Nodes) (b : Build) → all_built ns (built n b) ≡ all_built (cons n ns) b
unfolding push_ids push_providers node_count layout leaf_list
all_built-cons n ns b =
    Build-ext (omega arith) refl refl
      (rw (length-append, length-append, length-layout, append_assoc)) (append_assoc b.leaves _ _)
