-- ===== src/Sss/Recovery.antt =====
-- `reconstruct` of crates/leelo-sss/src/lib.rs on shares of one secret.
use leelo.Base.{
  ℕ, suc, ◌<◌, ◌≡◌, refl, sym, ◌∙◌, ap, ap₂, subst, false, List, [], ◌∷◌, ◌++◌, map, length, arith,
  All, get_elem?, some, ok, append_assoc, length-append, bit_or, length-map,
}
use leelo.Sss.Gf256.{◌⊕◌}
use leelo.Sss.Xor.{xor_self, zero_xor, xor-lt_byte}
use leelo.Sss.Linear.{mul-lt}
use leelo.Sss.Field.{mul-zero}
use leelo.Sss.Share.{Share, secret_len}
use leelo.Sss.Interpolation.{evaluate, evaluate_tail, weights, weighted_sum}
use leelo.Sss.Nodes.{AreBytes, IsDistinct, weighted_sum-weights}
use leelo.Sss.Sharing.{
  byte_at, or_zero, interpolate_loop, interpolate, any_index, check_indices, disagree, surplus_loop,
}

-- One byte of the secret with the further coefficients of its polynomial.
abbrev pub Poly : Type 0
Poly = ℕ × List ℕ

-- A polynomial of bytes that `threshold` values determine.
abbrev pub IsPolyOf : ℕ → Poly → Type 0
IsPolyOf threshold p = (p.0 < 256) × AreBytes p.1 × (suc (length p.1) ≡ threshold)

abbrev pub values_of : List Poly → ℕ → List ℕ
values_of polys x = map (λ p. evaluate p.0 p.1 x) polys

abbrev pub secret_of : List Poly → List ℕ
secret_of polys = map (λ p. p.0) polys

-- The share has a byte coordinate that is not zero, and the values at it.
abbrev pub IsShareOf : List Poly → Share → Type 0
IsShareOf polys s = (0 < s.index) × (s.index < 256) × (s.value ≡ values_of polys s.index)

abbrev pub indices : List Share → List ℕ
indices shares = map (λ s. s.index) shares

get_elem?-map_length :
    (done : List Poly) (p : Poly) (rest : List Poly) (x : ℕ)
    → get_elem? (values_of (done ++ p ∷ rest) x) (length done) ≡ some (evaluate p.0 p.1 x)
get_elem?-map_length [] p rest x = refl
get_elem?-map_length (d ∷ done) p rest x = get_elem?-map_length done p rest x

bytes_at :
    (done : List Poly) (p : Poly) (rest : List Poly) (basis : List Share)
    → All (IsShareOf (done ++ p ∷ rest)) basis
    → map (byte_at (length done)) basis ≡ map (evaluate p.0 p.1) (indices basis)
unfolding byte_at
bytes_at done p rest [] h = refl
bytes_at done p rest (s ∷ basis) h =
    ap₂ (λ x xs. x ∷ xs)
      (ap (λ v. or_zero (get_elem? v (length done))) h.0.2
        ∙ ap or_zero (get_elem?-map_length done p rest s.index))
      (bytes_at done p rest basis h.1)

indices-AreBytes :
    (polys : List Poly) (basis : List Share)
    → All (IsShareOf polys) basis
    → AreBytes (indices basis)
indices-AreBytes polys [] h = tt
indices-AreBytes polys (s ∷ basis) h = (h.0.1, indices-AreBytes polys basis h.1)

interpolate_loop-values :
    (threshold : ℕ) (basis : List Share) (target : ℕ) (done rest : List Poly)
    → target < 256
    → length basis ≡ threshold
    → IsDistinct (indices basis)
    → All (IsPolyOf threshold) rest
    → All (IsShareOf (done ++ rest)) basis
    → interpolate_loop (length rest) (length done) basis (weights (indices basis) target)
      ≡ values_of rest target
unfolding interpolate_loop
interpolate_loop-values threshold basis target done [] ht n d good shown = refl
interpolate_loop-values threshold basis target done (p ∷ rest) ht n d good shown =
    ap₂ (λ x xs. x ∷ xs)
      (ap (λ vs. weighted_sum vs (weights (indices basis) target))
          (bytes_at done p rest basis shown)
        ∙ weighted_sum-weights p.0 p.1 (indices basis) target good.0.0 good.0.1
            (indices-AreBytes (done ++ p ∷ rest) basis shown) ht
            (omega (arith, good.0.2, n, length-map (λ (s : Share). s.index) basis)) d)
      (ap (λ k. interpolate_loop (length rest) k basis (weights (indices basis) target))
          (omega (arith, length-append done (p ∷ [])))
        ∙ interpolate_loop-values threshold basis target (done ++ p ∷ []) rest ht n d good.1
            (subst (λ ps. All (IsShareOf ps) basis) (sym (append_assoc done (p ∷ []) rest)) shown))

-- As many shares as the threshold give every value of the polynomials.
pub interpolate-values :
    (threshold : ℕ) (basis : List Share) (target : ℕ) (polys : List Poly)
    → target < 256
    → length polys ≡ secret_len
    → length basis ≡ threshold
    → IsDistinct (indices basis)
    → All (IsPolyOf threshold) polys
    → All (IsShareOf polys) basis
    → interpolate basis target ≡ values_of polys target
unfolding interpolate
interpolate-values threshold basis target polys ht len n d good shown =
    ap (λ k. interpolate_loop k 0 basis (weights (indices basis) target)) (sym len)
    ∙ interpolate_loop-values threshold basis target [] polys ht n d good shown

evaluate_tail-lt : (cs : List ℕ) (x : ℕ) → x < 256 → AreBytes cs → evaluate_tail cs x < 256
unfolding evaluate_tail
evaluate_tail-lt [] x h hc = omega arith
evaluate_tail-lt (c ∷ cs) x h hc =
    xor-lt_byte _ c (mul-lt (evaluate_tail cs x) x (evaluate_tail-lt cs x h hc.1) h) hc.0

-- The polynomials at 0 are the secret.
pub values_of-zero :
    (threshold : ℕ) (polys : List Poly)
    → All (IsPolyOf threshold) polys
    → values_of polys 0 ≡ secret_of polys
unfolding evaluate
values_of-zero threshold [] good = refl
values_of-zero threshold (p ∷ polys) good =
    ap₂ (λ x xs. x ∷ xs)
      (ap (λ t. t ⊕ p.0)
          (mul-zero (evaluate_tail p.1 0) (evaluate_tail-lt p.1 0 (omega arith) good.0.1))
        ∙ zero_xor p.0)
      (values_of-zero threshold polys good.1)

any_index-none :
    (i : ℕ) (before : List Share)
    → All (λ j. ¬ (i ≡ j)) (indices before)
    → any_index i before ≡ false
unfolding any_index
any_index-none i [] h = refl
any_index-none i (s ∷ before) h = ground (arith, any_index-none i before h.1, h.0)

-- Each of `xs` differs from all of `before`.
abbrev pub AllDiffer : List ℕ → List ℕ → Type 0
AllDiffer before xs = All (λ x. All (λ y. ¬ (x ≡ y)) before) xs

AllDiffer-cons :
    (x : ℕ) (before xs : List ℕ)
    → All (λ y. ¬ (x ≡ y)) xs
    → AllDiffer before xs
    → AllDiffer (x ∷ before) xs
AllDiffer-cons x before [] h a = tt
AllDiffer-cons x before (y ∷ ys) h a =
    (((λ e. h.0 (sym e)), a.0), AllDiffer-cons x before ys h.1 a.1)

pub AllDiffer-nil : (xs : List ℕ) → AllDiffer [] xs
AllDiffer-nil [] = tt
AllDiffer-nil (x ∷ xs) = (tt, AllDiffer-nil xs)

pub check_indices-ok :
    (before shares : List Share)
    → All (λ i. 0 < i) (indices shares)
    → IsDistinct (indices shares)
    → AllDiffer (indices before) (indices shares)
    → check_indices before shares ≡ ok tt
unfolding check_indices
check_indices-ok before [] nonzero d a = refl
check_indices-ok before (s ∷ shares) nonzero d a = ground (
  arith,
  nonzero.0,
  any_index-none s.index before a.0,
  check_indices-ok (s ∷ before) shares nonzero.1 d.1
      (AllDiffer-cons s.index (indices before) (indices shares) d.0 a.1),
)

pub indices_positive :
    (polys : List Poly) (shares : List Share)
    → All (IsShareOf polys) shares
    → All (λ i. 0 < i) (indices shares)
indices_positive polys [] h = tt
indices_positive polys (s ∷ shares) h = (h.0.0, indices_positive polys shares h.1)

disagree_self : (xs : List ℕ) → disagree xs xs 0 ≡ 0
unfolding disagree
disagree_self [] = refl
disagree_self (x ∷ xs) = ap (λ e. disagree xs xs (bit_or 0 e)) (xor_self x) ∙ disagree_self xs

pub surplus_loop-agrees :
    (threshold : ℕ) (polys : List Poly) (basis shares : List Share)
    → length polys ≡ secret_len
    → length basis ≡ threshold
    → IsDistinct (indices basis)
    → All (IsPolyOf threshold) polys
    → All (IsShareOf polys) basis
    → All (IsShareOf polys) shares
    → surplus_loop basis shares 0 ≡ 0
unfolding surplus_loop
surplus_loop-agrees threshold polys basis [] len n d good shown more = refl
surplus_loop-agrees threshold polys basis (s ∷ shares) len n d good shown more =
    ap (surplus_loop basis shares) (
      ap₂ (λ a b. disagree a b 0)
        (interpolate-values threshold basis s.index polys more.0.1 len n d good shown) more.0.2
      ∙ disagree_self (values_of polys s.index))
    ∙ surplus_loop-agrees threshold polys basis shares len n d good shown more.1
