-- ===== src/Sss/Gf256.antt =====
-- Arithmetic in GF(2^8) modulo 0x11b, crates/leelo-sss/src/gf256.rs. A `u8` is a number below 256.
use leelo.Base.{ℕ, ◌-◌, ◌*◌, ◌/◌, ◌%◌, ◌≡◌, refl, bit_and, bit_xor}

-- `0_u8.wrapping_sub(x)`.
abbrev pub negated : ℕ → ℕ
negated x = (256 - x) % 256

unfoldable pub xtime : ℕ → ℕ
xtime a = bit_xor (a * 2 % 256) (bit_and 0x1b (negated (a / 128)))

unfoldable pub masked : ℕ → ℕ → ℕ
masked a b = bit_and a (negated (bit_and b 1))

infixl 60 ◌⊕◌
abbrev pub ◌⊕◌ : ℕ → ℕ → ℕ
a ⊕ b = bit_xor a b

unfoldable pub mul : ℕ → ℕ → ℕ
mul a b =
    let a1 = xtime a in
    let a2 = xtime a1 in
    let a3 = xtime a2 in
    let a4 = xtime a3 in
    let a5 = xtime a4 in
    let a6 = xtime a5 in
    let a7 = xtime a6 in
    masked a b
    ⊕ masked a1 (b / 2)
    ⊕ masked a2 (b / 4)
    ⊕ masked a3 (b / 8)
    ⊕ masked a4 (b / 16)
    ⊕ masked a5 (b / 32)
    ⊕ masked a6 (b / 64)
    ⊕ masked a7 (b / 128)

unfoldable pub inverse_nonzero : ℕ → ℕ
unfolding mul
inverse_nonzero a =
    let a2 = mul a a in
    let a4 = mul a2 a2 in
    let a8 = mul a4 a4 in
    let a16 = mul a8 a8 in
    let a32 = mul a16 a16 in
    let a64 = mul a32 a32 in
    let a128 = mul a64 a64 in mul (mul (mul a2 a4) (mul a8 a16)) (mul a32 (mul a64 a128))

aes_example : mul 0x57 0x83 ≡ 0xc1
unfolding mul xtime masked
aes_example = refl

aes_inverse : mul 0x53 (inverse_nonzero 0x53) ≡ 1
unfolding inverse_nonzero xtime masked
aes_inverse = refl
