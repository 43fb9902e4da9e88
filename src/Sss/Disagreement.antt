-- ===== src/Sss/Disagreement.antt =====
-- When the surplus shares of `reconstruct`, crates/leelo-sss/src/lib.rs, add no disagreement.
use Prim.Native.Nat.{digits, max, bit_or-bitwise}
use leelo.Base.{
  ℕ, zero, suc, ◌+◌, ◌*◌, ◌/◌, ◌%◌, ◌≤◌, ◌≡◌, refl, sym, ◌∙◌, ap, ap₂, List, [], ◌∷◌, length, All,
  arith, bit_or,
}
use leelo.Sss.Gf256.{◌⊕◌}
use leelo.Sss.Xor.{xor_self, xor_assoc, xor-zero, zero_xor}
use leelo.Sss.Share.{Share}
use leelo.Sss.Sharing.{disagree, interpolate, surplus_loop}

or_digits : (n a b : ℕ) → a ≤ n → digits (λ y. y) max n a b ≡ 0 → (a ≡ 0) × (b ≡ 0)
or_digits zero zero b p h = (refl, h)
or_digits zero (suc a) b p h = absurd (omega arith)
or_digits (suc n) zero b p h = (refl, h)
or_digits (suc n) (suc a) b p h =
    let total : digits (λ y. y) max n (suc a / 2) (b / 2) * 2 + max (suc a % 2) (b % 2) ≡ 0 = h in
    let (first, second) = or_digits n (suc a / 2) (b / 2) (omega arith) (omega (arith, total)) in
    (omega (arith, total, first), omega (arith, total, second))

-- `a | b` is 0 only when both are.
or_zero : (a b : ℕ) → bit_or a b ≡ 0 → (a ≡ 0) × (b ≡ 0)
or_zero a b h = or_digits a a b (omega arith) (sym (bit_or-bitwise a b) ∙ h)

xor_zero : (a b : ℕ) → a ⊕ b ≡ 0 → a ≡ b
xor_zero a b h =
    sym (xor-zero a)
    ∙ ap (λ x. a ⊕ x) (sym h)
    ∙ sym (xor_assoc a a b)
    ∙ ap (λ x. x ⊕ b) (xor_self a)
    ∙ zero_xor b

disagree-zero :
    (expected value : List ℕ) (d : ℕ)
    → length expected ≡ length value
    → disagree expected value d ≡ 0
    → (d ≡ 0) × (expected ≡ value)
unfolding disagree
disagree-zero [] [] d l h = (h, refl)
disagree-zero [] (v ∷ value) d l h = absurd (omega (arith, l))
disagree-zero (e ∷ expected) [] d l h = absurd (omega (arith, l))
disagree-zero (e ∷ expected) (v ∷ value) d l h =
    let (both, rest) = disagree-zero expected value (bit_or d (e ⊕ v)) (omega (arith, l)) h in
    let (start, here) = or_zero d (e ⊕ v) both in
    (start, ap₂ (λ x xs. x ∷ xs) (xor_zero e v here) rest)

-- No disagreement: the basis interpolates to every surplus share's value at its coordinate.
pub surplus_loop-zero :
    (basis shares : List Share) (d : ℕ)
    → All (λ s. length (interpolate basis s.index) ≡ length s.value) shares
    → surplus_loop basis shares d ≡ 0
    → (d ≡ 0) × All (λ s. interpolate basis s.index ≡ s.value) shares
unfolding surplus_loop
surplus_loop-zero basis [] d l h = (h, tt)
surplus_loop-zero basis (s ∷ shares) d l h =
    let (start, rest) =
      surplus_loop-zero basis shares (disagree (interpolate basis s.index) s.value d) l.1 h in
    let (first, same) = disagree-zero (interpolate basis s.index) s.value d l.0 start in
    (first, (same, rest))
