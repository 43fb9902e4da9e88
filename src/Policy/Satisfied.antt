-- ===== src/Policy/Satisfied.antt =====
-- What a policy means for a set of leaf identifiers, and that `network_satisfied` of
-- crates/leelo-policy/src/lib.rs answers it.
use leelo.Base.{
  ℕ, ◌+◌, ◌≤◌, ◌<◌, ◌≡◌, refl, sym, ◌∙◌, ap, Bool, List, [], ◌∷◌, ◌++◌, map, arith, leb,
  if◌then◌else◌, length, append_assoc, append-nil, length-append,
}
use leelo.Policy.Tree.{NetworkNode, Nodes, nil, cons, count_nodes}
use leelo.Policy.Verified.{is_set}
use leelo.Policy.Check.{Leaf}
use leelo.Policy.Layout.{
  leaf_list, leaf_count, forest_leaves, source_value, source_successes, HasThresholds,
  AllThresholds,
}
use leelo.Policy.Compile.{has_id}

-- A leaf is satisfied when its identifier is available, a threshold when enough children are.
unfoldable mutual
  pub satisfied : NetworkNode → List ℕ → Bool
  satisfied (NetworkNode.leaf i p) available = has_id i available
  satisfied (NetworkNode.threshold i required children) available =
      leb required (count_satisfied children available)

  pub count_satisfied : Nodes → List ℕ → ℕ
  count_satisfied nil available = 0
  count_satisfied (cons n ns) available =
      (if satisfied n available then 1 else 0) + count_satisfied ns available

-- The responses when exactly the identifiers in `available` have answered.
abbrev pub answered : List ℕ → List Leaf → List Bool
answered available leaves = map (λ l. has_id l.0 available) leaves

abbrev pub leaf_ids : List Leaf → List ℕ
leaf_ids leaves = map (λ l. l.0) leaves

pub map-append {ℓ κ} :
    {A : Type ℓ} {B : Type κ} (f : A → B) (xs ys : List A) → map f (xs ++ ys) ≡ map f xs ++ map f ys
map-append f [] ys = refl
map-append f (x ∷ xs) ys = ap (λ zs. f x ∷ zs) (map-append f xs ys)

-- The leaf at a position of the responses, whatever stands around it.
is_set-answered :
    (available : List ℕ) (before after : List Leaf) (i : ℕ) (p : List ℕ)
    → is_set (answered available (before ++ (i, p) ∷ after)) (length before) ≡ has_id i available
is_set-answered available [] after i p = refl
is_set-answered available (b ∷ before) after i p = is_set-answered available before after i p

-- `l` is where the leaves `here` stand among `leaves`.
record StandsAt (leaves here : List Leaf) (l : ℕ) : Type 0 where
  before : List Leaf
  after : List Leaf
  whole : leaves ≡ before ++ (here ++ after)
  start : length before ≡ l

StandsAt-first :
    (leaves xs ys : List Leaf) (l : ℕ) → StandsAt leaves (xs ++ ys) l → StandsAt leaves xs l
StandsAt-first leaves xs ys l s = record {
  before = s.before;
  after = ys ++ s.after;
  whole = s.whole ∙ ap (λ zs. s.before ++ zs) (append_assoc xs ys s.after);
  start = s.start;
}

StandsAt-second :
    (leaves xs ys : List Leaf) (l : ℕ)
    → StandsAt leaves (xs ++ ys) l
    → StandsAt leaves ys (l + length xs)
StandsAt-second leaves xs ys l s = record {
  before = s.before ++ xs;
  after = s.after;
  whole =
      s.whole
      ∙ ap (λ zs. s.before ++ zs) (append_assoc xs ys s.after)
      ∙ sym (append_assoc s.before xs (ys ++ s.after));
  start = omega (arith, length-append s.before xs, s.start);
}

leaf_value :
    (available : List ℕ) (leaves : List Leaf) (i : ℕ) (p : List ℕ) (l : ℕ)
    → StandsAt leaves ((i, p) ∷ []) l
    → is_set (answered available leaves) l ≡ has_id i available
leaf_value available leaves i p l s =
    rw (s.whole, ← s.start) (is_set-answered available s.before s.after i p)

threshold_value :
    (required id : ℕ) (ns : Nodes) (rs : List Bool) (l : ℕ)
    → 0 < required
    → required ≤ count_nodes ns
    → source_value (NetworkNode.threshold id required ns) rs l
      ≡ leb required (source_successes ns rs l)
unfolding source_value
threshold_value required id ns rs l pos fits = ground arith

module _ (available : List ℕ) (leaves : List Leaf) where
  mutual
    unfolding source_value satisfied leaf_list HasThresholds

    value_satisfied :
        (n : NetworkNode) (l : ℕ)
        → HasThresholds n
        → StandsAt leaves (leaf_list n) l
        → source_value n (answered available leaves) l ≡ satisfied n available
    value_satisfied (NetworkNode.leaf i p) l h s = leaf_value available leaves i p l s
    value_satisfied (NetworkNode.threshold i required ns) l h s =
        threshold_value required i ns (answered available leaves) l h.0 h.1
        ∙ ap (leb required) (successes_satisfied ns l h.2 s)

    successes_satisfied :
        (ns : Nodes) (l : ℕ)
        → AllThresholds ns
        → StandsAt leaves (forest_leaves ns) l
        → source_successes ns (answered available leaves) l ≡ count_satisfied ns available
    successes_satisfied nil l h s = refl
    successes_satisfied (cons n ns) l h s = rw (
      value_satisfied n l h.0 (StandsAt-first leaves (leaf_list n) (forest_leaves ns) l s),
      successes_satisfied ns (l + leaf_count n) h.1
          (StandsAt-second leaves (leaf_list n) (forest_leaves ns) l s),
    )

-- With the answers of `available`, the tree's value is what the policy means for `available`.
pub source_value-satisfied :
    (n : NetworkNode) (available : List ℕ)
    → HasThresholds n
    → source_value n (answered available (leaf_list n)) 0 ≡ satisfied n available
source_value-satisfied n available h =
    value_satisfied available (leaf_list n) n 0 h
      (record { before = []; after = []; whole = sym (append-nil (leaf_list n)); start = refl })
