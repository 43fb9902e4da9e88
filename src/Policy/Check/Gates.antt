-- ===== src/Policy/Check/Gates.antt =====
-- The tests of the certificate checker, read as equations.
use leelo.Base.{
  ℕ, ◌≡◌, refl, true, List, [], ◌∷◌, Option, none, some, arith, bytes_eq→eq, bytes_eq_refl, ==_refl,
}
use leelo.Policy.Verified.{Gate}
use leelo.Policy.Check.{
  Leaf, bind, same_provider, same_edges, is_leaf_gate, is_leaf_at, is_threshold_gate,
}

pub same_edges→eq : (xs ys : List ℕ) → same_edges xs ys ≡ true → xs ≡ ys
unfolding same_edges
same_edges→eq [] [] h = refl
same_edges→eq [] (y ∷ ys) h = cc
same_edges→eq (x ∷ xs) [] h = cc
same_edges→eq (x ∷ xs) (y ∷ ys) h = ground (arith, same_edges→eq xs ys)

pub same_edges_refl : (xs : List ℕ) → same_edges xs xs ≡ true
unfolding same_edges
same_edges_refl [] = refl
same_edges_refl (x ∷ xs) = ground (arith, same_edges_refl xs)

pub is_leaf_gate→eq : (o : Option Gate) (l : ℕ) → is_leaf_gate o l ≡ true → o ≡ some (Gate.leaf l)
is_leaf_gate→eq none l h = cc
is_leaf_gate→eq (some (Gate.leaf i)) l h = ground arith
is_leaf_gate→eq (some (Gate.threshold r es)) l h = cc

pub is_leaf_at→eq :
    (o : Option Leaf) (id : ℕ) (p : List ℕ) → is_leaf_at o id p ≡ true → o ≡ some (id, p)
unfolding same_provider
is_leaf_at→eq none id p h = cc
is_leaf_at→eq (some (i, q)) id p h = ground (arith, bytes_eq→eq q p)

pub is_threshold_gate→eq :
    (o : Option Gate) (required : ℕ) (expected : List ℕ)
    → is_threshold_gate o required expected ≡ true
    → o ≡ some (Gate.threshold required expected)
is_threshold_gate→eq none required expected h = cc
is_threshold_gate→eq (some (Gate.leaf i)) required expected h = cc
is_threshold_gate→eq (some (Gate.threshold r es)) required expected h =
    ground (arith, same_edges→eq es expected)

pub bind-eq-some {ℓ κ} :
    {A : Type ℓ} {B : Type κ} (o : Option A) (f : A → Option B) {b : B}
    → bind o f ≡ some b
    → (a : A) × (o ≡ some a) × (f a ≡ some b)
bind-eq-some none f h = cc
bind-eq-some (some a) f h = (a, refl, h)

pub is_leaf_gate_self : (l : ℕ) → is_leaf_gate (some (Gate.leaf l)) l ≡ true
is_leaf_gate_self l = ==_refl l

pub is_leaf_at_self : (id : ℕ) (p : List ℕ) → is_leaf_at (some (id, p)) id p ≡ true
unfolding same_provider
is_leaf_at_self id p = ground (arith, bytes_eq_refl p)

pub is_threshold_gate_self :
    (required : ℕ) (es : List ℕ)
    → is_threshold_gate (some (Gate.threshold required es)) required es ≡ true
is_threshold_gate_self required es = ground (arith, same_edges_refl es)
