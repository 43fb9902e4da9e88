-- ===== src/Sss/Weights.antt =====
-- The loops of crates/leelo-sss/src/interpolation.rs compute the sums and products of the byte field.
use leelo.Base.{
  ℕ, suc, ◌+◌, ◌<◌, ◌≤◌, ◌≡◌, refl, sym, ◌∙◌, ap, ap₂, List, [], ◌∷◌, length, arith, ◌==◌, false,
}
use leelo.Sss.Gf256.{mul, ◌⊕◌}
use leelo.Sss.Polynomial.{IsPoly, nil-plus}
use leelo.Sss.Lagrange.{product}
use leelo.Sss.Interpolant.{node_weight, interpolant}
use leelo.Sss.ByteField.{Byte, byte_field}
use leelo.Sss.Interpolation.{
  evaluate, evaluate_tail, weight_loop, weights_loop, weights, weighted_loop, weighted_sum,
}

infixl 60 ◌⊞◌
abbrev pub ◌⊞◌ : Byte → Byte → Byte
a ⊞ b = byte_field.plus a b

infixl 70 ◌⊠◌
abbrev pub ◌⊠◌ : Byte → Byte → Byte
a ⊠ b = byte_field.times a b

abbrev pub raw : List Byte → List ℕ
raw [] = []
raw (b ∷ bs) = b.0 ∷ raw bs

abbrev pub tail_value : List Byte → Byte → Byte
tail_value [] x = byte_field.nil
tail_value (c ∷ cs) x = tail_value cs x ⊠ x ⊞ c

-- The polynomial with the constant `s` and the further coefficients `cs`.
abbrev pub value : Byte → List Byte → Byte → Byte
value s cs x = tail_value cs x ⊠ x ⊞ s

evaluate_tail-raw : (cs : List Byte) (x : Byte) → evaluate_tail (raw cs) x.0 ≡ (tail_value cs x).0
unfolding evaluate_tail
evaluate_tail-raw [] x = refl
evaluate_tail-raw (c ∷ cs) x = ap (λ t. mul t x.0 ⊕ c.0) (evaluate_tail-raw cs x)

pub evaluate-raw :
    (s : Byte) (cs : List Byte) (x : Byte) → evaluate s.0 (raw cs) x.0 ≡ (value s cs x).0
unfolding evaluate
evaluate-raw s cs x = ap (λ t. mul t x.0 ⊕ s.0) (evaluate_tail-raw cs x)

IsPoly-step :
    (s : Byte) (n : ℕ) (f : Byte → Byte)
    → IsPoly byte_field n f
    → IsPoly byte_field (suc n) (λ t. f t ⊠ t ⊞ s)
unfolding IsPoly
IsPoly-step s n f p = (
  s,
  f,
  p,
  λ t. byte_field.plus_comm (f t ⊠ t) s ∙ ap (λ y. s ⊞ y) (byte_field.times_comm (f t) t),
)

tail-IsPoly : (cs : List Byte) → IsPoly byte_field (length cs) (tail_value cs)
unfolding IsPoly
tail-IsPoly [] = λ t. refl
tail-IsPoly (c ∷ cs) = IsPoly-step c (length cs) (tail_value cs) (tail-IsPoly cs)

pub IsPoly-value : (s : Byte) (cs : List Byte) → IsPoly byte_field (suc (length cs)) (value s cs)
IsPoly-value s cs = IsPoly-step s (length cs) (tail_value cs) (tail-IsPoly cs)

-- The nodes `zs` after those of `before`, whose last one stands first.
abbrev onto : List Byte → List Byte → List Byte
onto [] zs = zs
onto (b ∷ bs) zs = onto bs (b ∷ zs)

module _ (target x : Byte) (i : ℕ) where
  -- One step of the inner loop at another node, and at the node itself.
  loop_step :
      (j : ℕ) (z : Byte) (zs : List ℕ) (p q : Byte)
      → (i == j) ≡ false
      → weight_loop target.0 x.0 i j (z.0 ∷ zs) p.0 q.0
        ≡ weight_loop target.0 x.0 i (j + 1) zs (p ⊠ (target ⊞ z)).0 (q ⊠ (x ⊞ z)).0
  unfolding weight_loop
  loop_step j z zs p q e = rw e refl

  -- The nodes after the selected one.
  loop-after :
      (j : ℕ) (zs : List Byte) (p q : Byte)
      → i < j
      → weight_loop target.0 x.0 i j (raw zs) p.0 q.0
        ≡ ((p ⊠ product byte_field zs target) ⊠ byte_field.inverse (q ⊠ product byte_field zs x)).0
  unfolding weight_loop product
  loop-after j [] p q h =
      ap (λ (t : Byte × Byte). (t.0 ⊠ byte_field.inverse t.1).0)
        (ap₂ (λ a b. (a, b)) (sym (byte_field.times-one p)) (sym (byte_field.times-one q)))
  loop-after j (z ∷ zs) p q h =
      loop_step j z (raw zs) p q (ground arith)
      ∙ loop-after (j + 1) zs (p ⊠ (target ⊞ z)) (q ⊠ (x ⊞ z)) (omega arith)
      ∙ ap (λ (t : Byte × Byte). (t.0 ⊠ byte_field.inverse t.1).0)
          (ap₂ (λ a b. (a, b))
            (byte_field.times_assoc p (target ⊞ z) (product byte_field zs target))
            (byte_field.times_assoc q (x ⊞ z) (product byte_field zs x)))

  -- The nodes before the selected one.
  loop-before :
      (j : ℕ) (before zs : List Byte) (p q : Byte)
      → j + length before ≤ i
      → weight_loop target.0 x.0 i j (raw (onto before zs)) p.0 q.0
        ≡ weight_loop target.0 x.0 i
            (j + length before)
            (raw zs)
            (p ⊠ product byte_field before target).0
            (q ⊠ product byte_field before x).0
  unfolding product
  loop-before j [] zs p q h = (λ k.
      weight_loop target.0 x.0 i (same k) (raw zs) (sym (byte_field.times-one p) k).0
        (sym (byte_field.times-one q) k).0)
    where
      same : j ≡ j + 0
      same = omega arith
  loop-before j (b ∷ bs) zs p q h =
      loop-before j bs (b ∷ zs) p q (omega arith)
      ∙ loop_step (j + length bs) b (raw zs) (p ⊠ product byte_field bs target)
          (q ⊠ product byte_field bs x) (ground arith)
      ∙ (λ k.
          weight_loop target.0 x.0 i (same k) (raw zs)
            (swap (product byte_field bs target) (target ⊞ b) p k).0
            (swap (product byte_field bs x) (x ⊞ b) q k).0)
    where
      same : j + length bs + 1 ≡ j + suc (length bs)
      same = omega arith

      swap : (u v r : Byte) → (r ⊠ u) ⊠ v ≡ r ⊠ (v ⊠ u)
      swap u v r = byte_field.times_assoc r u v ∙ ap (λ y. r ⊠ y) (byte_field.times_comm u v)

  -- The step at the selected node.
  loop_selected :
      (zs : List ℕ) (z : ℕ) (p q : ℕ)
      → weight_loop target.0 x.0 i i (z ∷ zs) p q ≡ weight_loop target.0 x.0 i (i + 1) zs p q
  unfolding weight_loop
  loop_selected zs z p q = ground arith

one_times : (a : Byte) → byte_field.one ⊠ a ≡ a
one_times a = byte_field.times_comm byte_field.one a ∙ byte_field.times-one a

weight_loop-node_weight :
    (target x : Byte) (before rest : List Byte)
    → weight_loop target.0 x.0 (length before) 0 (raw (onto before (x ∷ rest))) 1 1
      ≡ (node_weight byte_field before rest x target).0
weight_loop-node_weight target x before rest =
    loop-before target x (length before) 0 before (x ∷ rest) byte_field.one byte_field.one
      (omega arith)
    ∙ ap
        (λ j.
          weight_loop target.0 x.0 (length before) j (raw (x ∷ rest))
            (byte_field.one ⊠ product byte_field before target).0
            (byte_field.one ⊠ product byte_field before x).0)
        (omega arith)
    ∙ loop_selected target x (length before) (raw rest) x.0 _ _
    ∙ loop-after target x (length before) (length before + 1) rest
        (byte_field.one ⊠ product byte_field before target)
        (byte_field.one ⊠ product byte_field before x) (omega arith)
    ∙ ap
        (λ (t : Byte × Byte).
          ((t.0 ⊠ product byte_field rest target)
            ⊠ byte_field.inverse (t.1 ⊠ product byte_field rest x)).0)
        (ap₂ (λ a b. (a, b)) (one_times (product byte_field before target))
          (one_times (product byte_field before x)))

abbrev pub values_at : (f : Byte → Byte) → List Byte → List ℕ
values_at f [] = []
values_at f (x ∷ xs) = (f x).0 ∷ values_at f xs

sum_loop :
    (f : Byte → Byte) (target : Byte) (before xs : List Byte) (r : Byte)
    → weighted_loop
        (values_at f xs)
        (weights_loop (raw (onto before xs)) target.0 (length before) (raw xs))
        r.0
      ≡ (r ⊞ interpolant byte_field f before xs target).0
unfolding weighted_loop weights_loop interpolant
sum_loop f target before [] r = ap (λ (b : Byte). b.0) (sym (byte_field.plus-nil r))
sum_loop f target before (x ∷ xs) r =
    ap
      (λ w.
        weighted_loop (values_at f xs)
          (weights_loop (raw (onto before (x ∷ xs))) target.0 (length before + 1) (raw xs))
          (r.0 ⊕ mul (f x).0 w))
      (weight_loop-node_weight target x before xs)
    ∙ ap
        (λ i.
          weighted_loop (values_at f xs)
            (weights_loop (raw (onto before (x ∷ xs))) target.0 i (raw xs))
            (r ⊞ f x ⊠ node_weight byte_field before xs x target).0)
        (omega arith)
    ∙ sum_loop f target (x ∷ before) xs (r ⊞ f x ⊠ node_weight byte_field before xs x target)
    ∙ ap (λ (b : Byte). b.0)
        (byte_field.plus_assoc r (f x ⊠ node_weight byte_field before xs x target)
          (interpolant byte_field f (x ∷ before) xs target))

-- The source's sum with the source's weights is the interpolation at `target`.
pub weighted_sum-interpolant :
    (f : Byte → Byte) (target : Byte) (xs : List Byte)
    → weighted_sum (values_at f xs) (weights (raw xs) target.0)
      ≡ (interpolant byte_field f [] xs target).0
unfolding weighted_sum weights
weighted_sum-interpolant f target xs =
    sum_loop f target [] xs byte_field.nil
    ∙ ap (λ (b : Byte). b.0) (nil-plus byte_field (interpolant byte_field f [] xs target))
