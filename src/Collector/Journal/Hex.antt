-- ===== src/Collector/Journal/Hex.antt =====
-- `lower_hex` of crates/leelo-collector/src/reconcile.rs, and the digits that it reads back.
use leelo.Base.{
  is_within, ℕ, zero, suc, ◌*◌, ◌+◌, ◌-◌, ◌%◌, ◌/◌, ◌<◌, ◌≡◌, ◌↔◌, refl, sym, ◌∙◌, ap, ap₂, subst,
  List, [], ◌∷◌, Bool, true, not, ◌||◌, Option, none, some, ltb, ◌==◌, if◌then◌else◌, length, All,
  arith, some_injective, Bool-cases, &&-eq-true, ==_refl, inl, inr,
}
use leelo.Collector.Boots.{all_bytes}

-- `char::to_digit(16)`.
unfoldable pub to_digit : ℕ → Option ℕ
to_digit v =
    if is_within 48 57 v
    then some (v - 48)
    else if is_within 97 102 v
    then some (v - 87)
    else if is_within 65 70 v
    then some (v - 55)
    else none

abbrev pub is_lower_hex : ℕ → Bool
is_lower_hex v = is_within 48 57 v || is_within 97 102 v

abbrev pub byte_of : Option ℕ → Option ℕ → Option (List ℕ) → Option (List ℕ)
byte_of (some high) (some low) (some bytes) = some ((high * 16 + low) % 256 ∷ bytes)
byte_of high low bytes = none

-- The bytes of the pairs of digits; an odd digit at the end is left out.
unfoldable pub read_pairs : List ℕ → Option (List ℕ)
read_pairs [] = some []
read_pairs (high ∷ []) = some []
read_pairs (high ∷ low ∷ rest) = byte_of (to_digit high) (to_digit low) (read_pairs rest)

unfoldable pub lower_hex : ℕ → List ℕ → Option (List ℕ)
lower_hex n value =
    if not (length value == n * 2) || not (all_bytes is_lower_hex value)
    then none
    else read_pairs value

-- The lower-case digits of bytes.
abbrev pub hex_digit : ℕ → ℕ
hex_digit d = if ltb d 10 then d + 48 else d + 87

abbrev pub hex : List ℕ → List ℕ
hex [] = []
hex (b ∷ bs) = hex_digit (b / 16) ∷ hex_digit (b % 16) ∷ hex bs

-- A lower-case digit is the digit of its value, which is below 16.
digit_read :
    (v : ℕ) → is_lower_hex v ≡ true → (d : ℕ) × (to_digit v ≡ some d) × (d < 16) × (v ≡ hex_digit d)
unfolding to_digit
digit_read v h = elim (Bool-cases (is_within 48 57 v)) [
  | inl digit ↦ (v - 48, ground (arith, digit), ground arith, ground arith)
  | inr letter ↦ (v - 87, ground arith, ground arith, ground arith)
]

read_digit :
    (d : ℕ) → d < 16 → (to_digit (hex_digit d) ≡ some d) × (is_lower_hex (hex_digit d) ≡ true)
unfolding to_digit
read_digit d h = (ground arith, ground arith)

all_hex : (bs : List ℕ) → All (λ b. b < 256) bs → all_bytes is_lower_hex (hex bs) ≡ true
all_hex [] a = refl
all_hex (b ∷ bs) a =
    rw ((read_digit (b / 16) (omega (arith, a.0))).1, (read_digit (b % 16) (omega arith)).1)
      (all_hex bs a.1)

length-hex : (bs : List ℕ) → length (hex bs) ≡ length bs * 2
length-hex [] = refl
length-hex (b ∷ bs) = omega (arith, length-hex bs)

read_pairs-hex : (bs : List ℕ) → All (λ b. b < 256) bs → read_pairs (hex bs) ≡ some bs
unfolding read_pairs
read_pairs-hex [] a = refl
read_pairs-hex (b ∷ bs) a =
    rw
      (
        (read_digit (b / 16) (omega (arith, a.0))).0,
        (read_digit (b % 16) (omega arith)).0,
        read_pairs-hex bs a.1,
      )
      (ap (λ x. some (x ∷ bs)) (omega (arith, a.0)))

pair_print :
    {high low h w : ℕ} {rest : List ℕ} (bs : List ℕ)
    → h < 16
    → w < 16
    → high ≡ hex_digit h
    → low ≡ hex_digit w
    → rest ≡ hex bs
    → high ∷ low ∷ rest ≡ hex ((h * 16 + w) % 256 ∷ bs)
pair_print {h} {w} bs h_small w_small h_print w_print print =
    rw (h_print, w_print, print)
      (ap₂ (λ x y. hex_digit x ∷ hex_digit y ∷ hex bs) (omega arith) (omega arith))

-- An even number of lower-case digits reads to bytes that print to the same digits.
read_pairs_law :
    (n : ℕ) (value : List ℕ)
    → length value ≡ n * 2
    → all_bytes is_lower_hex value ≡ true
    → (bs : List ℕ) × (read_pairs value ≡ some bs)
      × (length bs ≡ n)
      × All (λ b. b < 256) bs
      × (value ≡ hex bs)
unfolding read_pairs
read_pairs_law zero [] l a = ([], refl, refl, tt, refl)
read_pairs_law zero (v ∷ vs) l a = absurd (omega (arith, l))
read_pairs_law (suc n) [] l a = absurd (omega (arith, l))
read_pairs_law (suc n) (v ∷ []) l a = absurd (omega (arith, l))
read_pairs_law (suc n) (high ∷ low ∷ rest) l a =
    let (a_high, a') = &&-eq-true (is_lower_hex high) _ a in
    let (a_low, a_rest) = &&-eq-true (is_lower_hex low) _ a' in
    let (h, h_read, h_small, h_print) = digit_read high a_high in
    let (w, w_read, w_small, w_print) = digit_read low a_low in
    let (bs, read, size, bytes, print) = read_pairs_law n rest (omega (arith, l)) a_rest in
    (
      (h * 16 + w) % 256 ∷ bs,
      rw (h_read, w_read, read) refl,
      ap suc size,
      (omega arith, bytes),
      pair_print bs h_small w_small h_print w_print print,
    )

-- `lower_hex` accepts exactly the lower-case digits of `n` bytes, and reads those bytes.
pub lower_hex_iff :
    (n : ℕ) (value bs : List ℕ)
    → (lower_hex n value ≡ some bs) ↔ ((length bs ≡ n) × All (λ b. b < 256) bs × (value ≡ hex bs))
unfolding lower_hex
lower_hex_iff n value bs = (
  λ h.
      let (l, a, read) = accepted h in
      let (bs', read', size, bytes, print) = read_pairs_law n value l a in
      let same = some_injective (sym read' ∙ read) in
      (subst (λ x. (length x ≡ n) × All (λ b. b < 256) x × (value ≡ hex x)) same
        (size, bytes, print)),
  λ (size, bytes, print).
      rw (print, all_hex bs bytes, length-hex bs, size, ==_refl (n * 2)) (read_pairs-hex bs bytes),
)
  where
    accepted :
        lower_hex n value ≡ some bs
        → (length value ≡ n * 2)
          × (all_bytes is_lower_hex value ≡ true)
          × (read_pairs value ≡ some bs)
    accepted h = (ground arith, ground arith, ground arith)
