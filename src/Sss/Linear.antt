-- ===== src/Sss/Linear.antt =====
-- Multiplication of crates/leelo-sss/src/gf256.rs is linear in each argument.
use leelo.Base.{
  ℕ, zero, suc, ◌/◌, ◌%◌, ◌<◌, ◌≡◌, refl, subst, sym, ◌∙◌, ap, ap₂, arith, if◌then◌else◌, ◌==◌,
  Bool-cases, inl, inr,
}
use Prim.Native.Nat.{differ}
use leelo.Sss.Gf256.{xtime, masked, mul, ◌⊕◌}
use leelo.Sss.Xor.{
  xor_comm, xor_assoc, xor_self, xor-zero, zero_xor, xor-lt_byte, xor-half, xor-parity,
}
use leelo.Sss.Bytes.{xtime-xor, xtime-lt, masked_lem}

-- The rounds of `mul` as a recursion on the bits of the multiplier.
rounds : ℕ → ℕ → ℕ → ℕ
rounds zero a b = 0
rounds (suc k) a b = (if b % 2 == 0 then 0 else a) ⊕ rounds k (xtime a) (b / 2)

ruleset xor_laws = (xor_assoc, xor-zero)

round : (a b b' : ℕ) → a < 256 → b < 256 → b ≡ b' → masked a b ≡ (if b' % 2 == 0 then 0 else a)
round a b b' ha hb e = masked_lem a b ha hb ∙ ap (λ t. if t % 2 == 0 then 0 else a) e

xor_right :
    (p q r s t u v w : ℕ)
    → p ⊕ q ⊕ r ⊕ s ⊕ t ⊕ u ⊕ v ⊕ w ≡ p ⊕ (q ⊕ (r ⊕ (s ⊕ (t ⊕ (u ⊕ (v ⊕ (w ⊕ 0)))))))
xor_right p q r s t u v w = simp xor_laws

mul-rounds : (a b : ℕ) → a < 256 → b < 256 → mul a b ≡ rounds 8 a b
unfolding mul rounds
mul-rounds a b ha hb =
    let h1 = xtime-lt a ha in
    let h2 = xtime-lt _ h1 in
    let h3 = xtime-lt _ h2 in
    let h4 = xtime-lt _ h3 in
    let h5 = xtime-lt _ h4 in
    let h6 = xtime-lt _ h5 in
    let h7 = xtime-lt _ h6 in
    ap₂ ◌⊕◌
      (ap₂ ◌⊕◌
        (ap₂ ◌⊕◌
          (ap₂ ◌⊕◌
            (ap₂ ◌⊕◌
              (ap₂ ◌⊕◌
                (ap₂ ◌⊕◌ (round a b b ha hb refl) (round _ (b / 2) (b / 2) h1 (omega arith) refl))
                (round _ (b / 4) (b / 2 / 2) h2 (omega arith) (omega arith)))
              (round _ (b / 8) (b / 2 / 2 / 2) h3 (omega arith) (omega arith)))
            (round _ (b / 16) (b / 2 / 2 / 2 / 2) h4 (omega arith) (omega arith)))
          (round _ (b / 32) (b / 2 / 2 / 2 / 2 / 2) h5 (omega arith) (omega arith)))
        (round _ (b / 64) (b / 2 / 2 / 2 / 2 / 2 / 2) h6 (omega arith) (omega arith)))
      (round _ (b / 128) (b / 2 / 2 / 2 / 2 / 2 / 2 / 2) h7 (omega arith) (omega arith))
    ∙ xor_right _ _ _ _ _ _ _ _

-- Four terms, regrouped.
pub xor_swap : (a b c d : ℕ) → (a ⊕ b) ⊕ (c ⊕ d) ≡ (a ⊕ c) ⊕ (b ⊕ d)
xor_swap a b c d =
    xor_assoc a b (c ⊕ d)
    ∙ ap (λ t. a ⊕ t) (sym (xor_assoc b c d) ∙ ap (λ t. t ⊕ d) (xor_comm b c) ∙ xor_assoc c b d)
    ∙ sym (xor_assoc a c (b ⊕ d))

rounds-lt : (k a b : ℕ) → a < 256 → rounds k a b < 256
unfolding rounds
rounds-lt zero a b h = omega arith
rounds-lt (suc k) a b h =
    xor-lt_byte _ _ (elim (Bool-cases (b % 2 == 0)) [ inl e ↦ rw e (omega arith) | inr e ↦ rw e h ])
      (rounds-lt k (xtime a) (b / 2) (xtime-lt a h))

term_left :
    (b x y : ℕ)
    → (if b % 2 == 0 then 0 else x ⊕ y)
      ≡ (if b % 2 == 0 then 0 else x) ⊕ (if b % 2 == 0 then 0 else y)
term_left b x y = elim (Bool-cases (b % 2 == 0)) [ inl e ↦ rw e | inr e ↦ rw e ]

rounds-xor_left :
    (k a a' b : ℕ) → a < 256 → a' < 256 → rounds k (a ⊕ a') b ≡ rounds k a b ⊕ rounds k a' b
unfolding rounds
rounds-xor_left zero a a' b h h' = refl
rounds-xor_left (suc k) a a' b h h' =
    ap₂ ◌⊕◌ (term_left b a a') (
      ap (λ t. rounds k t (b / 2)) (xtime-xor a a' h h')
      ∙ rounds-xor_left k (xtime a) (xtime a') (b / 2) (xtime-lt a h) (xtime-lt a' h'))
    ∙ xor_swap _ _ _ _

term_right :
    (a x y : ℕ)
    → x < 2
    → y < 2
    → (if differ x y == 0 then 0 else a) ≡ (if x == 0 then 0 else a) ⊕ (if y == 0 then 0 else a)
term_right a zero zero p q = refl
term_right a zero (suc zero) p q = sym (zero_xor a)
term_right a (suc zero) zero p q = sym (xor-zero a)
term_right a (suc zero) (suc zero) p q = sym (xor_self a)
term_right a zero (suc (suc y)) p q = absurd (omega arith)
term_right a (suc zero) (suc (suc y)) p q = absurd (omega arith)
term_right a (suc (suc x)) y p q = absurd (omega arith)

rounds-xor_right : (k a b b' : ℕ) → rounds k a (b ⊕ b') ≡ rounds k a b ⊕ rounds k a b'
unfolding rounds
rounds-xor_right zero a b b' = refl
rounds-xor_right (suc k) a b b' =
    ap₂ ◌⊕◌
      (ap (λ t. if t == 0 then 0 else a) (xor-parity b b')
        ∙ term_right a (b % 2) (b' % 2) (omega arith) (omega arith))
      (ap (rounds k (xtime a)) (xor-half b b') ∙ rounds-xor_right k (xtime a) (b / 2) (b' / 2))
    ∙ xor_swap _ _ _ _

-- A product of bytes is a byte.
pub mul-lt : (a b : ℕ) → a < 256 → b < 256 → mul a b < 256
mul-lt a b ha hb = subst (λ t. t < 256) (sym (mul-rounds a b ha hb)) (rounds-lt 8 a b ha)

pub mul-xor_left : (a a' b : ℕ) → a < 256 → a' < 256 → b < 256 → mul (a ⊕ a') b ≡ mul a b ⊕ mul a' b
mul-xor_left a a' b h h' k =
    rw (mul-rounds (a ⊕ a') b (xor-lt_byte a a' h h') k, mul-rounds a b h k, mul-rounds a' b h' k)
      (rounds-xor_left 8 a a' b h h')

-- Multiplication of bytes distributes over their sum, exclusive or.
pub mul-xor_right :
    (a b b' : ℕ) → a < 256 → b < 256 → b' < 256 → mul a (b ⊕ b') ≡ mul a b ⊕ mul a b'
mul-xor_right a b b' h k k' =
    rw (mul-rounds a (b ⊕ b') h (xor-lt_byte b b' k k'), mul-rounds a b h k, mul-rounds a b' h k')
      (rounds-xor_right 8 a b b')
