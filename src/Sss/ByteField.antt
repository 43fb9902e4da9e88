-- ===== src/Sss/ByteField.antt =====
-- The field of bytes, for the interpolation of crates/leelo-sss/src/interpolation.rs.
use mathlib.Core.HLevel.{Σ_prop_path}
use native.Mathlib.Bridge.{le_prop}
use leelo.Base.{ℕ, zero, suc, ◌<◌, ◌≡◌, refl, ap, arith}
use leelo.Sss.Gf256.{mul, inverse_nonzero, ◌⊕◌}
use leelo.Sss.Xor.{xor_comm, xor_assoc, xor_self, xor-zero, xor-lt_byte}
use leelo.Sss.Bytes.{mul-one, inverse-lt}
use leelo.Sss.Linear.{mul-lt, mul-xor_right}
use leelo.Sss.Field.{mul_comm, mul_assoc, mul-inverse}
use leelo.Sss.Polynomial.{Field}

abbrev pub Byte : Type 0
Byte = (n : ℕ) × (n < 256)

pub Byte-ext : {a b : Byte} → a.0 ≡ b.0 → a ≡ b
Byte-ext e = Σ_prop_path (λ n. le_prop) e

abbrev pub byte_field : Field Byte
byte_field = record {
  nil = (0, omega arith);
  one = (1, omega arith);
  plus = λ a b. (a.0 ⊕ b.0, xor-lt_byte a.0 b.0 a.1 b.1);
  times = λ a b. (mul a.0 b.0, mul-lt a.0 b.0 a.1 b.1);
  inverse = λ a. (inverse_nonzero a.0, inverse-lt a.0 a.1);
  plus_assoc = λ a b c. Byte-ext (xor_assoc a.0 b.0 c.0);
  plus_comm = λ a b. Byte-ext (xor_comm a.0 b.0);
  plus-nil = λ a. Byte-ext (xor-zero a.0);
  plus_self = λ a. Byte-ext (xor_self a.0);
  times_assoc = λ a b c. Byte-ext (mul_assoc a.0 b.0 c.0 a.1 b.1 c.1);
  times_comm = λ a b. Byte-ext (mul_comm a.0 b.0 a.1 b.1);
  times-one = λ a. Byte-ext (mul-one a.0 a.1);
  times-plus = λ a b c. Byte-ext (mul-xor_right a.0 b.0 c.0 a.1 b.1 c.1);
  times-inverse =
      λ a nonzero. Byte-ext (mul-inverse a.0 a.1 (positive a.0 λ e. nonzero (Byte-ext e)));
  one_nonzero = λ e. absurd (omega (arith, ap (λ (z : Byte). z.0) e));
}
  where
    positive : (n : ℕ) → ¬ (n ≡ 0) → 0 < n
    positive zero h = absurd (h refl)
    positive (suc n) h = omega arith
