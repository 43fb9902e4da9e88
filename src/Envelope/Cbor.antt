-- ===== src/Envelope/Cbor.antt =====
-- What crates/leelo-envelope uses of minicbor. An encoder appends to a vector; a decoder stands at
-- the rest of its input, or fails.
use leelo.Base.{ℕ, ◌+◌, ◌≤◌, ◌<◌, ◌^◌, ◌≡◌, List, ◌++◌, Option, some, length}

pub record Cbor : Type 0 where
  pub put_array : ℕ → List ℕ
  pub put_u8 : ℕ → List ℕ
  pub put_u32 : ℕ → List ℕ
  pub put_u64 : ℕ → List ℕ
  pub put_bytes : List ℕ → List ℕ
  pub put_str : List ℕ → List ℕ
  -- The length of an array, `none` where it is indefinite.
  pub get_array : List ℕ → Option (Option ℕ × List ℕ)
  pub get_u8 : List ℕ → Option (ℕ × List ℕ)
  pub get_u32 : List ℕ → Option (ℕ × List ℕ)
  pub get_u64 : List ℕ → Option (ℕ × List ℕ)
  pub get_bytes : List ℕ → Option (List ℕ × List ℕ)
  pub get_str : List ℕ → Option (List ℕ × List ℕ)

-- A decoder reads what the encoder wrote, whatever follows it, a head takes at most 9 bytes, and
-- the content of a byte string is written out.
pub record IsCbor (c : Cbor) : Type 0 where
  pub array_law :
      (n : ℕ)
      → n < 2 ^ 64
      → (rest : List ℕ) → c.get_array (c.put_array n ++ rest) ≡ some (some n, rest)
  pub u8_law : (n : ℕ) → n < 256 → (rest : List ℕ) → c.get_u8 (c.put_u8 n ++ rest) ≡ some (n, rest)
  pub u32_law :
      (n : ℕ) → n < 2 ^ 32 → (rest : List ℕ) → c.get_u32 (c.put_u32 n ++ rest) ≡ some (n, rest)
  pub u64_law :
      (n : ℕ) → n < 2 ^ 64 → (rest : List ℕ) → c.get_u64 (c.put_u64 n ++ rest) ≡ some (n, rest)
  pub bytes_law :
      (b : List ℕ)
      → length b < 2 ^ 64
      → (rest : List ℕ) → c.get_bytes (c.put_bytes b ++ rest) ≡ some (b, rest)
  pub str_law :
      (s : List ℕ)
      → length s < 2 ^ 64
      → (rest : List ℕ) → c.get_str (c.put_str s ++ rest) ≡ some (s, rest)
  pub array_size : (n : ℕ) → length (c.put_array n) ≤ 9
  pub bytes_size : (b : List ℕ) → length (c.put_bytes b) ≤ length b + 9
  pub bytes_least : (b : List ℕ) → length b ≤ length (c.put_bytes b)
