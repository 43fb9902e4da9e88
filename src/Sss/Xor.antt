-- ===== src/Sss/Xor.antt =====
-- The laws of `^` on machine words, at every width, from its digit recursion.
use Prim.Native.Nat.{digits, differ, bit_xor-bitwise}
use native.Mathlib.Nat.{le_refl, pow-suc}
use leelo.Base.{
  ℕ, zero, suc, ◌+◌, ◌*◌, ◌/◌, ◌%◌, ◌^◌, ◌≤◌, ◌<◌, ◌≡◌, refl, sym, ◌∙◌, arith, bit_xor,
}

abbrev xor_digits : ℕ → ℕ → ℕ → ℕ
xor_digits n a b = digits (λ y. y) differ n a b

-- More fuel than digits changes nothing.
xor_digits_fuel : (n m a b : ℕ) → a ≤ n → a ≤ m → xor_digits n a b ≡ xor_digits m a b
xor_digits_fuel zero zero a b p q = refl
xor_digits_fuel zero (suc m) zero b p q = refl
xor_digits_fuel zero (suc m) (suc a) b p q = absurd (omega arith)
xor_digits_fuel (suc n) zero zero b p q = refl
xor_digits_fuel (suc n) zero (suc a) b p q = absurd (omega arith)
xor_digits_fuel (suc n) (suc m) zero b p q = refl
xor_digits_fuel (suc n) (suc m) (suc a) b p q =
    rw (xor_digits_fuel n m (suc a / 2) (b / 2) (omega arith) (omega arith))

zero-xor : (b : ℕ) → bit_xor 0 b ≡ b
zero-xor b = bit_xor-bitwise 0 b

differ-zero : (b : ℕ) → b < 2 → differ 0 b ≡ b
differ-zero zero h = refl
differ-zero (suc zero) h = refl
differ-zero (suc (suc b)) h = absurd (omega arith)

-- The lowest digit, and the rest.
pub xor_step : (a b : ℕ) → bit_xor a b ≡ bit_xor (a / 2) (b / 2) * 2 + differ (a % 2) (b % 2)
xor_step zero b = omega (arith, zero-xor b, zero-xor (b / 2), differ-zero (b % 2) (omega arith))
xor_step (suc a) b = omega (
  arith,
  bit_xor-bitwise (suc a) b,
  bit_xor-bitwise (suc a / 2) (b / 2),
  xor_digits_fuel a (suc a / 2) (suc a / 2) (b / 2) (omega arith) (omega arith),
)

differ-lt : (x y : ℕ) → x < 2 → y < 2 → differ x y < 2
differ-lt zero zero p q = omega arith
differ-lt zero (suc zero) p q = omega arith
differ-lt (suc zero) zero p q = omega arith
differ-lt (suc zero) (suc zero) p q = omega arith
differ-lt zero (suc (suc y)) p q = absurd (omega arith)
differ-lt (suc zero) (suc (suc y)) p q = absurd (omega arith)
differ-lt (suc (suc x)) y p q = absurd (omega arith)

differ_comm : (x y : ℕ) → x < 2 → y < 2 → differ x y ≡ differ y x
differ_comm zero zero p q = refl
differ_comm zero (suc zero) p q = refl
differ_comm (suc zero) zero p q = refl
differ_comm (suc zero) (suc zero) p q = refl
differ_comm zero (suc (suc y)) p q = absurd (omega arith)
differ_comm (suc zero) (suc (suc y)) p q = absurd (omega arith)
differ_comm (suc (suc x)) y p q = absurd (omega arith)

differ_self : (x : ℕ) → x < 2 → differ x x ≡ 0
differ_self zero p = refl
differ_self (suc zero) p = refl
differ_self (suc (suc x)) p = absurd (omega arith)

differ_assoc : (x y z : ℕ) → x < 2 → y < 2 → z < 2 → differ (differ x y) z ≡ differ x (differ y z)
differ_assoc zero y z p q r = rw (differ-zero y q, differ-zero _ (differ-lt y z q r))
differ_assoc (suc zero) zero zero p q r = refl
differ_assoc (suc zero) zero (suc zero) p q r = refl
differ_assoc (suc zero) (suc zero) zero p q r = refl
differ_assoc (suc zero) (suc zero) (suc zero) p q r = refl
differ_assoc (suc zero) zero (suc (suc z)) p q r = absurd (omega arith)
differ_assoc (suc zero) (suc zero) (suc (suc z)) p q r = absurd (omega arith)
differ_assoc (suc zero) (suc (suc y)) z p q r = absurd (omega arith)
differ_assoc (suc (suc x)) y z p q r = absurd (omega arith)

pub xor-half : (a b : ℕ) → bit_xor a b / 2 ≡ bit_xor (a / 2) (b / 2)
xor-half a b = omega (arith, xor_step a b, differ-lt (a % 2) (b % 2) (omega arith) (omega arith))

pub xor-parity : (a b : ℕ) → bit_xor a b % 2 ≡ differ (a % 2) (b % 2)
xor-parity a b = omega (arith, xor_step a b, differ-lt (a % 2) (b % 2) (omega arith) (omega arith))

-- Strong induction, with a bound that halving lowers.
xor_comm_below : (n a b : ℕ) → a ≤ n → b ≤ n → bit_xor a b ≡ bit_xor b a
xor_comm_below zero zero zero p q = refl
xor_comm_below zero zero (suc b) p q = absurd (omega arith)
xor_comm_below zero (suc a) b p q = absurd (omega arith)
xor_comm_below (suc n) a b p q = omega (
  arith,
  xor_step a b,
  xor_step b a,
  xor_comm_below n (a / 2) (b / 2) (omega arith) (omega arith),
  differ_comm (a % 2) (b % 2) (omega arith) (omega arith),
)

pub xor_comm : (a b : ℕ) → bit_xor a b ≡ bit_xor b a
xor_comm a b = xor_comm_below (a + b) a b (omega arith) (omega arith)

xor_self_below : (n a : ℕ) → a ≤ n → bit_xor a a ≡ 0
xor_self_below zero zero p = refl
xor_self_below zero (suc a) p = absurd (omega arith)
xor_self_below (suc n) a p =
    omega (
      arith,
      xor_step a a,
      xor_self_below n (a / 2) (omega arith),
      differ_self (a % 2) (omega arith),
    )

pub xor_self : (a : ℕ) → bit_xor a a ≡ 0
xor_self a = xor_self_below a a (le_refl a)

xor_assoc_below :
    (n a b c : ℕ) → a ≤ n → b ≤ n → c ≤ n → bit_xor (bit_xor a b) c ≡ bit_xor a (bit_xor b c)
xor_assoc_below zero zero b c p q r = rw (zero-xor b, zero-xor (bit_xor b c))
xor_assoc_below zero (suc a) b c p q r = absurd (omega arith)
xor_assoc_below (suc n) a b c p q r =
    xor_step (bit_xor a b) c
    ∙ rw
        (
          xor-half a b,
          xor-parity a b,
          xor_assoc_below n (a / 2) (b / 2) (c / 2) (omega arith) (omega arith) (omega arith),
          differ_assoc (a % 2) (b % 2) (c % 2) (omega arith) (omega arith) (omega arith),
          ← xor-half b c,
          ← xor-parity b c,
        )
        (sym (xor_step a (bit_xor b c)))

pub xor_assoc : (a b c : ℕ) → bit_xor (bit_xor a b) c ≡ bit_xor a (bit_xor b c)
xor_assoc a b c = xor_assoc_below (a + b + c) a b c (omega arith) (omega arith) (omega arith)

pub xor-zero : (a : ℕ) → bit_xor a 0 ≡ a
xor-zero a = xor_comm a 0 ∙ zero-xor a

pub zero_xor : (a : ℕ) → bit_xor 0 a ≡ a
zero_xor = zero-xor

-- The exclusive or of two words of `k` bits has `k` bits.
pub xor-lt : (k a b : ℕ) → a < 2 ^ k → b < 2 ^ k → bit_xor a b < 2 ^ k
xor-lt zero zero zero p q = p
xor-lt zero zero (suc b) p q = absurd (omega arith)
xor-lt zero (suc a) b p q = absurd (omega arith)
xor-lt (suc k) a b p q = omega (
  arith,
  xor_step a b,
  pow-suc 2 k,
  xor-lt k (a / 2) (b / 2) (omega (arith, pow-suc 2 k)) (omega (arith, pow-suc 2 k)),
  differ-lt (a % 2) (b % 2) (omega arith) (omega arith),
)

pub xor-lt_byte : (a b : ℕ) → a < 256 → b < 256 → bit_xor a b < 256
xor-lt_byte = xor-lt 8
