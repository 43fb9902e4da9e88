-- ===== src/Sss/Field.antt =====
-- The bytes with the arithmetic of crates/leelo-sss/src/gf256.rs are a field.
use leelo.Base.{
  ℕ, zero, suc, ◌+◌, ◌-◌, ◌<◌, ◌≡◌, refl, sym, ◌∙◌, ap, ap₂, subst, arith, true, ◌==◌, all_below,
  Bool-cases, inl, inr, ltb, ltb→lt,
}
use leelo.Sss.Gf256.{mul, inverse_nonzero, xtime, masked, ◌⊕◌}
use leelo.Sss.Bytes.{equal_below, split_table, mul-one, mul-inverse_pred, xtime-lt, xtime-xor}
use leelo.Sss.Linear.{mul-lt, mul-xor_left, mul-xor_right}

-- A property of the powers of x that sums keep holds of every byte.
module _ (P : ℕ → Type 0) (none_ : P 0)
    (sum : (a b : ℕ) → a < 256 → b < 256 → P a → P b → P (a ⊕ b)) where
  extend :
      (m : ℕ)
      → m < 129
      → all_below m (λ r. (m ⊕ r) == m + r) ≡ true
      → P m
      → ((r : ℕ) → r < m → P r)
      → (r : ℕ) → r < m + m
      → P r
  extend m small table at_m below r h = elim (Bool-cases (ltb r m)) [
    | inl less ↦ below r (ltb→lt r m less)
    | inr not_less ↦
        subst P (split_table m table (r - m) (ground arith) ∙ ground arith)
          (sum m (r - m) (omega arith) (ground arith) at_m (below (r - m) (ground arith)))
  ]

  pub byte_induction : P 1 → P 2 → P 4 → P 8 → P 16 → P 32 → P 64 → P 128 → (a : ℕ) → a < 256 → P a
  unfolding all_below
  byte_induction p0 p1 p2 p3 p4 p5 p6 p7 = extend 128 (omega arith) refl p7 (
      extend 64 (omega arith) refl p6 (
        extend 32 (omega arith) refl p5 (
          extend 16 (omega arith) refl p4 (
            extend 8 (omega arith) refl p3 (
              extend 4 (omega arith) refl p2 (
                extend 2 (omega arith) refl p1
                  (extend 1 (omega arith) refl p0 (λ r h. subst P (omega arith) none_))))))))

basis_table : (f g : ℕ → ℕ) → all_below 256 (λ x. f x == g x) ≡ true → (x : ℕ) → x < 256 → f x ≡ g x
basis_table = equal_below 256

-- Multiplication of bytes is commutative.
pub mul_comm : (a b : ℕ) → a < 256 → b < 256 → mul a b ≡ mul b a
unfolding all_below mul xtime masked
mul_comm a b ha hb =
    byte_induction (λ x. (y : ℕ) → y < 256 → mul x y ≡ mul y x) (table 0 refl)
      (λ x y hx hy p q z hz.
        mul-xor_left x y z hx hy hz
        ∙ ap₂ ◌⊕◌ (p z hz) (q z hz)
        ∙ sym (mul-xor_right z x y hz hx hy))
      (table 1 refl) (table 2 refl) (table 4 refl) (table 8 refl) (table 16 refl) (table 32 refl)
      (table 64 refl) (table 128 refl) a ha b hb
  where
    table :
        (c : ℕ)
        → all_below 256 (λ y. mul c y == mul y c) ≡ true
        → (y : ℕ) → y < 256
        → mul c y ≡ mul y c
    table c t = basis_table (mul c) (λ y. mul y c) t

double_table : all_below 256 (λ x. mul x 2 == xtime x) ≡ true
unfolding all_below mul xtime masked
double_table = refl

mul-two : (a : ℕ) → a < 256 → mul a 2 ≡ xtime a
mul-two = basis_table (λ x. mul x 2) xtime double_table

mul-xtime : (a b : ℕ) → a < 256 → b < 256 → mul (xtime a) b ≡ xtime (mul a b)
unfolding all_below mul xtime masked
mul-xtime a b ha hb =
    byte_induction (λ y. mul (xtime a) y ≡ xtime (mul a y)) (table 0 refl)
      (λ x y hx hy p q.
        mul-xor_right (xtime a) x y (xtime-lt a ha) hx hy
        ∙ ap₂ ◌⊕◌ p q
        ∙ sym (xtime-xor (mul a x) (mul a y) (mul-lt a x ha hx) (mul-lt a y ha hy))
        ∙ ap xtime (sym (mul-xor_right a x y ha hx hy)))
      (table 1 refl) (table 2 refl) (table 4 refl) (table 8 refl) (table 16 refl) (table 32 refl)
      (table 64 refl) (table 128 refl) b hb
  where
    table :
        (c : ℕ)
        → all_below 256 (λ x. mul (xtime x) c == xtime (mul x c)) ≡ true
        → mul (xtime a) c ≡ xtime (mul a c)
    table c t = basis_table (λ x. mul (xtime x) c) (λ x. xtime (mul x c)) t a ha

-- A factor 2 moves through a product.
mul-mul_two : (a b : ℕ) → a < 256 → b < 256 → mul (mul a b) 2 ≡ mul a (mul b 2)
mul-mul_two a b ha hb =
    mul-two (mul a b) (mul-lt a b ha hb)
    ∙ ap xtime (mul_comm a b ha hb)
    ∙ sym (mul-xtime b a hb ha)
    ∙ mul_comm (xtime b) a (xtime-lt b hb) ha
    ∙ ap (mul a) (sym (mul-two b hb))

zero_table : all_below 256 (λ x. mul x 0 == 0) ≡ true
unfolding all_below mul xtime masked
zero_table = refl

pub mul-zero : (a : ℕ) → a < 256 → mul a 0 ≡ 0
mul-zero = basis_table (λ x. mul x 0) (λ x. 0) zero_table

-- Multiplication of bytes is associative.
pub mul_assoc : (a b c : ℕ) → a < 256 → b < 256 → c < 256 → mul (mul a b) c ≡ mul a (mul b c)
unfolding mul xtime masked
mul_assoc a b c ha hb hc =
    byte_induction (λ z. mul (mul a b) z ≡ mul a (mul b z)) none_
      (λ x y hx hy p q.
        mul-xor_right (mul a b) x y (mul-lt a b ha hb) hx hy
        ∙ ap₂ ◌⊕◌ p q
        ∙ sym (mul-xor_right a (mul b x) (mul b y) ha (mul-lt b x hb hx) (mul-lt b y hb hy))
        ∙ ap (mul a) (sym (mul-xor_right b x y hb hx hy)))
      at1 at2 at4 at8 at16 at32 at64 (double 64 (omega arith) at64) c hc
  where
    none_ : mul (mul a b) 0 ≡ mul a (mul b 0)
    none_ = mul-zero (mul a b) (mul-lt a b ha hb) ∙ sym (ap (mul a) (mul-zero b hb) ∙ mul-zero a ha)

    double :
        (z : ℕ)
        → z < 256
        → mul (mul a b) z ≡ mul a (mul b z)
        → mul (mul a b) (mul z 2) ≡ mul a (mul b (mul z 2))
    double z hz p =
        sym (mul-mul_two (mul a b) z (mul-lt a b ha hb) hz)
        ∙ ap (λ t. mul t 2) p
        ∙ mul-mul_two a (mul b z) ha (mul-lt b z hb hz)
        ∙ ap (mul a) (mul-mul_two b z hb hz)

    at1 : mul (mul a b) 1 ≡ mul a (mul b 1)
    at1 = mul-one (mul a b) (mul-lt a b ha hb) ∙ sym (ap (mul a) (mul-one b hb))

    at2 : mul (mul a b) 2 ≡ mul a (mul b 2)
    at2 = double 1 (omega arith) at1

    at4 : mul (mul a b) 4 ≡ mul a (mul b 4)
    at4 = double 2 (omega arith) at2

    at8 : mul (mul a b) 8 ≡ mul a (mul b 8)
    at8 = double 4 (omega arith) at4

    at16 : mul (mul a b) 16 ≡ mul a (mul b 16)
    at16 = double 8 (omega arith) at8

    at32 : mul (mul a b) 32 ≡ mul a (mul b 32)
    at32 = double 16 (omega arith) at16

    at64 : mul (mul a b) 64 ≡ mul a (mul b 64)
    at64 = double 32 (omega arith) at32

-- The product of a nonzero byte and what `inverse_nonzero` gives for it is 1.
pub mul-inverse : (a : ℕ) → a < 256 → 0 < a → mul a (inverse_nonzero a) ≡ 1
mul-inverse (suc a) h pos =
    subst (λ t. mul t (inverse_nonzero t) ≡ 1) (omega arith) (mul-inverse_pred a (omega arith))
mul-inverse zero h pos = absurd (omega arith)
