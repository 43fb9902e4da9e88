-- ===== src/Policy/LeafIds.antt =====
-- The leaves of an admissible policy carry distinct identifiers.
use leelo.Base.{ℕ, ◌≡◌, refl, false, List, [], ◌∷◌, ◌++◌, arith, All}
use leelo.Policy.Tree.{NetworkNode, Nodes, nil, cons}
use leelo.Policy.Check.{Leaf}
use leelo.Policy.Layout.{leaf_list, forest_leaves}
use leelo.Policy.Compile.{has_id}
use leelo.Policy.Admissible.{
  DistinctIds, DistinctIds-push_all_ids, push_ids, push_all_ids, IsAdmissible,
}
use leelo.Policy.Satisfied.{leaf_ids}

-- The identifiers of a list of leaves in front of `acc`, the last first.
push_leaves : List Leaf → List ℕ → List ℕ
push_leaves [] acc = acc
push_leaves (l ∷ ls) acc = push_leaves ls (l.0 ∷ acc)

push_leaves-append :
    (xs ys : List Leaf) (acc : List ℕ)
    → push_leaves (xs ++ ys) acc ≡ push_leaves ys (push_leaves xs acc)
unfolding push_leaves
push_leaves-append [] ys acc = refl
push_leaves-append (x ∷ xs) ys acc = push_leaves-append xs ys (x.0 ∷ acc)

-- `xs` is a sublist of `ys`, as far as membership goes.
abbrev IsCovered : List ℕ → List ℕ → Type 0
IsCovered xs ys = (i : ℕ) → has_id i ys ≡ false → has_id i xs ≡ false

record LeavesApart (xs ys : List ℕ) : Type 0 where
  apart : DistinctIds xs
  covered : IsCovered xs ys

IsCovered-cons_right : (i : ℕ) (xs ys : List ℕ) → IsCovered xs ys → IsCovered xs (i ∷ ys)
IsCovered-cons_right i xs ys c j h = c j (ground arith)

IsCovered-cons : (i : ℕ) (xs ys : List ℕ) → IsCovered xs ys → IsCovered (i ∷ xs) (i ∷ ys)
IsCovered-cons i xs ys c j h = ground (arith, c j)

leaf_apart :
    (i : ℕ) (p acc lacc : List ℕ)
    → LeavesApart lacc acc
    → DistinctIds (push_ids (NetworkNode.leaf i p) acc)
    → LeavesApart (i ∷ lacc) (i ∷ acc)
unfolding push_ids
leaf_apart i p acc lacc s d = record {
  apart = (s.covered i d.0, s.apart);
  covered = IsCovered-cons i lacc acc s.covered;
}

mutual
  unfolding push_ids leaf_list push_leaves

  node_apart :
      (n : NetworkNode) (acc lacc : List ℕ)
      → LeavesApart lacc acc
      → DistinctIds (push_ids n acc)
      → LeavesApart (push_leaves (leaf_list n) lacc) (push_ids n acc)
  node_apart (NetworkNode.leaf i p) acc lacc s d = leaf_apart i p acc lacc s d
  node_apart (NetworkNode.threshold i required ns) acc lacc s d =
      forest_apart ns (i ∷ acc) lacc
        (record { apart = s.apart; covered = IsCovered-cons_right i lacc acc s.covered }) d

  forest_apart :
      (ns : Nodes) (acc lacc : List ℕ)
      → LeavesApart lacc acc
      → DistinctIds (push_all_ids ns acc)
      → LeavesApart (push_leaves (forest_leaves ns) lacc) (push_all_ids ns acc)
  forest_apart nil acc lacc s d = s
  forest_apart (cons n ns) acc lacc s d =
      rw (push_leaves-append (leaf_list n) (forest_leaves ns) lacc) (
        forest_apart ns (push_ids n acc) _
          (node_apart n acc lacc s (DistinctIds-push_all_ids ns (push_ids n acc) d)) d)

-- Distinctness does not depend on the order.
record Unpushed (ls : List Leaf) (acc : List ℕ) : Type 0 where
  apart : DistinctIds (leaf_ids ls)
  fresh : All (λ (l : Leaf). has_id l.0 acc ≡ false) ls
  rest : DistinctIds acc

absent_of_fresh :
    (i : ℕ) (acc : List ℕ) (ls : List Leaf)
    → All (λ (l : Leaf). has_id l.0 (i ∷ acc) ≡ false) ls
    → (has_id i (leaf_ids ls) ≡ false) × All (λ (l : Leaf). has_id l.0 acc ≡ false) ls
absent_of_fresh i acc [] h = (refl, tt)
absent_of_fresh i acc (l ∷ ls) h =
    let (a, b) = absent_of_fresh i acc ls h.1 in (ground arith, (ground arith, b))

unpush : (ls : List Leaf) (acc : List ℕ) → DistinctIds (push_leaves ls acc) → Unpushed ls acc
unfolding push_leaves
unpush [] acc d = record { apart = tt; fresh = tt; rest = d }
unpush (l ∷ ls) acc d =
    let u = unpush ls (l.0 ∷ acc) d in
    let (absent, fresh) = absent_of_fresh l.0 acc ls u.fresh in
    record { apart = (absent, u.apart); fresh = (u.rest.0, fresh); rest = u.rest.1 }

pub DistinctIds-leaf_ids :
    (tpm_node_id : ℕ) (n : NetworkNode)
    → IsAdmissible tpm_node_id n
    → DistinctIds (leaf_ids (leaf_list n))
DistinctIds-leaf_ids tpm_node_id n a =
    (unpush (leaf_list n) []
      (node_apart n (tpm_node_id ∷ []) [] (record { apart = tt; covered = λ i h. refl })
        a.ids).apart).apart
