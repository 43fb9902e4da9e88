-- ===== src/Envelope/Read.antt =====
-- The readers of crates/leelo-envelope/src/lib.rs: from the rest of the input to a value and what
-- follows it.
use leelo.Base.{
  ℕ, Bool, false, ◌||◌, not, ltb, ◌==◌, List, Option, none, some, length, Result, ok, err, ◌>>=◌,
  ◌>>◌, guard,
}
use leelo.Envelope.Cbor.{Cbor}
use leelo.Envelope.Types.{Error, malformed, too_large}

-- `.map_err(malformed)?`
abbrev pub or_malformed {ℓ} : {A : Type ℓ} → Option A → Result Error A
or_malformed none = err malformed
or_malformed (some a) = ok a

abbrev pub is_size : Option ℕ → ℕ → Bool
is_size none size = false
is_size (some n) size = n == size

module _ (c : Cbor) where
  unfoldable pub arr : ℕ → List ℕ → Result Error (List ℕ)
  arr size input = do
    (n, rest) ← or_malformed (c.get_array input)
    guard (is_size n size) malformed
    ok rest

  unfoldable pub fixed_bytes : ℕ → List ℕ → Result Error (List ℕ × List ℕ)
  fixed_bytes n input = do
    (b, rest) ← or_malformed (c.get_bytes input)
    guard (length b == n) malformed
    ok (b, rest)

  unfoldable pub bounded_bytes : ℕ → List ℕ → Result Error (List ℕ × List ℕ)
  bounded_bytes max input = do
    (b, rest) ← or_malformed (c.get_bytes input)
    guard (not (length b == 0 || ltb max (length b))) too_large
    ok (b, rest)

  unfoldable pub bounded_array : ℕ → List ℕ → Result Error (ℕ × List ℕ)
  bounded_array max input = do
    (size, rest) ← or_malformed (c.get_array input)
    n ← or_malformed size
    guard (not (ltb max n)) too_large
    ok (n, rest)

  abbrev pub read_u8 : List ℕ → Result Error (ℕ × List ℕ)
  read_u8 input = or_malformed (c.get_u8 input)
