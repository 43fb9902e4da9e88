-- ===== src/Sss/Bytes.antt =====
-- Facts about single bytes of crates/leelo-sss/src/gf256.rs, checked at every byte.
use leelo.Base.{
  ℕ, ◌+◌, ◌/◌, ◌%◌, ◌<◌, ◌≡◌, refl, true, arith, ◌==◌, ==_iff, all_below, all_below_sound,
  if◌then◌else◌,
}
use leelo.Sss.Gf256.{xtime, masked, mul, inverse_nonzero, ◌⊕◌}

-- Two facts at every pair of bytes, or one at every byte, by one evaluation.
pub equal_below :
    (n : ℕ) (f g : ℕ → ℕ) → all_below n (λ x. f x == g x) ≡ true → (x : ℕ) → x < n → f x ≡ g x
equal_below n f g table x h = (==_iff (f x) (g x)).0 (all_below_sound _ n table x h)

equal_below_pairs :
    (n m : ℕ) (f g : ℕ → ℕ → ℕ)
    → all_below n (λ x. all_below m (λ y. f x y == g x y)) ≡ true
    → (x y : ℕ) → x < n
    → y < m
    → f x y ≡ g x y
equal_below_pairs n m f g table x y hx hy =
    equal_below m (f x) (g x) (all_below_sound _ n table x hx) y hy

xtime_xor_table :
    all_below 256 (λ x. all_below 256 (λ y. xtime (x ⊕ y) == (xtime x ⊕ xtime y))) ≡ true
unfolding all_below xtime
xtime_xor_table = refl

-- Multiplication by x is linear.
pub xtime-xor : (a b : ℕ) → a < 256 → b < 256 → xtime (a ⊕ b) ≡ xtime a ⊕ xtime b
xtime-xor =
    equal_below_pairs 256 256 (λ x y. xtime (x ⊕ y)) (λ x y. xtime x ⊕ xtime y) xtime_xor_table

xtime_table : all_below 256 (λ x. xtime x / 256 == 0) ≡ true
unfolding all_below xtime
xtime_table = refl

pub xtime-lt : (a : ℕ) → a < 256 → xtime a < 256
xtime-lt a h = omega (arith, equal_below 256 (λ x. xtime x / 256) (λ x. 0) xtime_table a h)

masked_table :
    all_below 256 (λ x. all_below 256 (λ y. masked x y == (if y % 2 == 0 then 0 else x))) ≡ true
unfolding all_below masked
masked_table = refl

-- A masked round adds the multiplicand or nothing, by the lowest bit of the multiplier.
pub masked_lem : (a b : ℕ) → a < 256 → b < 256 → masked a b ≡ (if b % 2 == 0 then 0 else a)
masked_lem = equal_below_pairs 256 256 masked (λ x y. if y % 2 == 0 then 0 else x) masked_table

one_table : all_below 256 (λ x. mul x 1 == x) ≡ true
unfolding all_below mul xtime masked
one_table = refl

pub mul-one : (a : ℕ) → a < 256 → mul a 1 ≡ a
mul-one = equal_below 256 (λ x. mul x 1) (λ x. x) one_table

inverse_table : all_below 255 (λ x. mul (x + 1) (inverse_nonzero (x + 1)) == 1) ≡ true
unfolding all_below inverse_nonzero xtime masked
inverse_table = refl

pub mul-inverse_pred : (a : ℕ) → a < 255 → mul (a + 1) (inverse_nonzero (a + 1)) ≡ 1
mul-inverse_pred =
    equal_below 255 (λ x. mul (x + 1) (inverse_nonzero (x + 1))) (λ x. 1) inverse_table

inverse_bound_table : all_below 256 (λ x. inverse_nonzero x / 256 == 0) ≡ true
unfolding all_below inverse_nonzero xtime masked
inverse_bound_table = refl

pub inverse-lt : (a : ℕ) → a < 256 → inverse_nonzero a < 256
inverse-lt a h =
    omega (arith, equal_below 256 (λ x. inverse_nonzero x / 256) (λ x. 0) inverse_bound_table a h)

-- A byte is the exclusive or of its highest bit and the rest.
pub split_table :
    (m : ℕ) → all_below m (λ r. (m ⊕ r) == m + r) ≡ true → (r : ℕ) → r < m → m ⊕ r ≡ m + r
split_table m table = equal_below m (λ r. m ⊕ r) (λ r. m + r) table
