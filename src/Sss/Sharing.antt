-- ===== src/Sss/Sharing.antt =====
-- `split` and `reconstruct` of crates/leelo-sss/src/lib.rs. The random generator is a parameter:
-- `fill` is `try_fill_bytes`, from the generator's state and a number of bytes to the bytes and
-- the next state, or `none` for its error.
use leelo.Base.{
  ℕ, zero, suc, ◌+◌, ◌-◌, Bool, false, ◌||◌, List, [], ◌∷◌, map, Option, none, some, ltb, ◌==◌, not,
  if◌then◌else◌, bit_or, length, get_elem?, set, take, drop, replicate, Result, ok, err, ◌>>=◌,
  ◌>>◌, guard,
}
use leelo.Sss.Gf256.{◌⊕◌}
use leelo.Sss.Share.{
  Error, invalid_threshold, invalid_share_count, insufficient_shares, zero_index, duplicate_index,
  entropy_unavailable, inconsistent_shares, secret_len, max_shares, Share,
}
use leelo.Sss.Interpolation.{evaluate, weights, weighted_sum}

unfoldable pub validate_threshold : ℕ → Result Error (Unit {0})
validate_threshold threshold =
    guard (not (threshold == 0 || ltb max_shares threshold)) (invalid_threshold threshold)

-- `(1..=count)` with a zeroed value each, from `index` on.
unfoldable pub zeroed_shares : ℕ → ℕ → List Share
zeroed_shares zero index = []
zeroed_shares (suc count) index =
    record { index = index; value = replicate secret_len 0 } ∷ zeroed_shares count (index + 1)

unfoldable pub put_byte : ℕ → ℕ → List ℕ → Share → Share
put_byte byte secret_byte coefficients share = record share {
  value = set share.value byte (evaluate secret_byte coefficients share.index);
}

-- `.map_err(|_| Error::EntropyUnavailable)`.
abbrev pub filled : {A : Type 0} → Option A → Result Error A
filled none = err entropy_unavailable
filled (some p) = ok p

module _ {R : Type 0} (fill : R → ℕ → Option (List ℕ × R)) where
  -- The loop over the bytes of the secret, from position `byte` on.
  unfoldable pub split_bytes : ℕ → List ℕ → ℕ → R → List Share → Result Error (List Share × R)
  unfolding put_byte
  split_bytes degree [] byte rng shares = ok (shares, rng)
  split_bytes degree (secret_byte ∷ secret) byte rng shares = do
    (coefficients, rng') ← filled (fill rng degree)
    split_bytes degree secret (byte + 1) rng' (map (put_byte byte secret_byte coefficients) shares)

  unfoldable pub split : List ℕ → ℕ → ℕ → R → Result Error (List Share × R)
  unfolding validate_threshold zeroed_shares split_bytes
  split secret threshold count rng = do
    validate_threshold threshold
    guard (not (count == 0 || ltb max_shares count)) (invalid_share_count count)
    guard (not (ltb count threshold)) (insufficient_shares threshold count)
    split_bytes (threshold - 1) secret 0 rng (zeroed_shares count 1)

-- `share.value[byte]`; the position is within the value, which has `secret_len` bytes.
abbrev pub or_zero : Option ℕ → ℕ
or_zero none = 0
or_zero (some b) = b

unfoldable pub byte_at : ℕ → Share → ℕ
byte_at byte share = or_zero (get_elem? share.value byte)

-- The loop over `byte`, at the last `n` bytes.
unfoldable pub interpolate_loop : ℕ → ℕ → List Share → List ℕ → List ℕ
unfolding byte_at weighted_sum
interpolate_loop zero byte shares coefficients = []
interpolate_loop (suc n) byte shares coefficients =
    weighted_sum (map (byte_at byte) shares) coefficients
    ∷ interpolate_loop n (byte + 1) shares coefficients

unfoldable pub interpolate : List Share → ℕ → List ℕ
unfolding interpolate_loop weights
interpolate shares target =
    interpolate_loop secret_len 0 shares (weights (map (λ s. s.index) shares) target)

unfoldable pub any_index : ℕ → List Share → Bool
any_index index [] = false
any_index index (other ∷ others) = other.index == index || any_index index others

-- The check of each coordinate; `before` holds the shares of `shares[..i]`, the last first.
unfoldable pub check_indices : List Share → List Share → Result Error (Unit {0})
unfolding any_index
check_indices before [] = ok tt
check_indices before (share ∷ shares) =
    if share.index == 0
    then err zero_index
    else if any_index share.index before
    then err (duplicate_index share.index)
    else check_indices (share ∷ before) shares

-- `disagreement |= expected[byte] ^ share.value[byte]` over the bytes of two values.
unfoldable pub disagree : List ℕ → List ℕ → ℕ → ℕ
disagree (e ∷ expected) (v ∷ value) disagreement =
    disagree expected value (bit_or disagreement (e ⊕ v))
disagree [] _ disagreement = disagreement
disagree (e ∷ expected) [] disagreement = disagreement

unfoldable pub surplus_loop : List Share → List Share → ℕ → ℕ
unfolding interpolate disagree
surplus_loop basis [] disagreement = disagreement
surplus_loop basis (share ∷ shares) disagreement =
    surplus_loop basis shares (disagree (interpolate basis share.index) share.value disagreement)

unfoldable pub reconstruct : ℕ → List Share → Result Error (List ℕ)
unfolding validate_threshold check_indices surplus_loop interpolate
reconstruct threshold shares = do
  validate_threshold threshold
  guard (not (ltb max_shares (length shares))) (invalid_share_count (length shares))
  guard (not (ltb (length shares) threshold)) (insufficient_shares threshold (length shares))
  check_indices [] shares
  guard (surplus_loop (take threshold shares) (drop threshold shares) 0 == 0) inconsistent_shares
  ok (interpolate (take threshold shares) 0)
