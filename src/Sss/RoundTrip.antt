-- ===== src/Sss/RoundTrip.antt =====
-- `split` and then `reconstruct`, crates/leelo-sss/src/lib.rs.
use leelo.Base.{
  ℕ, zero, suc, ◌+◌, ◌-◌, ◌<◌, ◌≤◌, ◌≡◌, refl, sym, ◌∙◌, ap, subst, List, [], ◌∷◌, length, arith,
  All, Option, ◌⊎◌, inl, inr, ok, length-map,
}
use leelo.Sss.Share.{Share, secret_len, max_shares}
use leelo.Sss.Nodes.{AreBytes, IsDistinct}
use leelo.Sss.Sharing.{validate_threshold, zeroed_shares, split_bytes, split, reconstruct}
use leelo.Sss.Recovery.{Poly, IsPolyOf, IsShareOf, values_of, secret_of, indices}
use leelo.Sss.Reconstruct.{reconstruct_lem}
use leelo.Sss.Splitting.{IsFilled, Fills, split_bytes-Split}

-- `k`, `k + 1` and so on, `n` numbers.
abbrev pub numbers : ℕ → ℕ → List ℕ
numbers zero k = []
numbers (suc n) k = k ∷ numbers n (k + 1)

zeroed_indices : (n k : ℕ) → indices (zeroed_shares n k) ≡ numbers n k
unfolding zeroed_shares
zeroed_indices zero k = refl
zeroed_indices (suc n) k = ap (λ xs. k ∷ xs) (zeroed_indices n (k + 1))

zeroed-IsFilled : (n k : ℕ) → All (IsFilled [] secret_len) (zeroed_shares n k)
unfolding zeroed_shares
zeroed-IsFilled zero k = tt
zeroed-IsFilled (suc n) k = (refl, zeroed-IsFilled n (k + 1))

abbrev IsCoordinate : ℕ → Type 0
IsCoordinate i = (0 < i) × (i < 256)

numbers-bounded : (n k : ℕ) → 0 < k → k + n ≤ 256 → All IsCoordinate (numbers n k)
numbers-bounded zero k pos h = tt
numbers-bounded (suc n) k pos h =
    ((pos, omega arith), numbers-bounded n (k + 1) (omega arith) (omega arith))

shares_of :
    (polys : List Poly) (shares : List Share)
    → All IsCoordinate (indices shares)
    → All (λ s. s.value ≡ values_of polys s.index) shares
    → All (IsShareOf polys) shares
shares_of polys [] b h = tt
shares_of polys (s ∷ shares) b h = ((b.0.0, b.0.1, h.0), shares_of polys shares b.1 h.1)

-- The guards of `split`, from its success.
split_passes :
    {R : Type 0} (fill : R → ℕ → Option (List ℕ × R)) (secret : List ℕ) (threshold count : ℕ)
    (rng : R) (out : List Share × R)
    → split fill secret threshold count rng ≡ ok out
    → (0 < threshold)
      × (threshold ≤ count)
      × (count ≤ max_shares)
      × (split_bytes fill (threshold - 1) secret 0 rng (zeroed_shares count 1) ≡ ok out)
unfolding split validate_threshold
split_passes fill secret threshold count rng out h = ground arith

-- Shares that some polynomials give, one for each byte of the secret.
pub record AreSharesOf (secret : List ℕ) (threshold count : ℕ) (shares : List Share) : Type 0 where
  pub polys : List Poly
  pub same_secret : secret_of polys ≡ secret
  pub good : All (IsPolyOf threshold) polys
  pub numbered : indices shares ≡ numbers count 1
  pub shown : All (IsShareOf polys) shares

-- When `split` succeeds on a secret of 32 bytes, its shares have the coordinates 1 to `count` and
-- the values, at them, of one polynomial for each byte, whose constant is that byte and which has
-- `threshold` coefficients.
pub split-AreSharesOf :
    {R : Type 0} (fill : R → ℕ → Option (List ℕ × R)) (secret : List ℕ) (threshold count : ℕ)
    (rng : R) (out : List Share × R)
    → Fills fill
    → length secret ≡ secret_len
    → AreBytes secret
    → split fill secret threshold count rng ≡ ok out
    → AreSharesOf secret threshold count out.0
split-AreSharesOf fill secret threshold count rng out fills len bytes h =
    let (pos, fits, few, e) = split_passes fill secret threshold count rng out h in
    let s =
      split_bytes-Split fill fills (threshold - 1) secret [] rng (zeroed_shares count 1) out bytes
        (subst (λ n. All (IsFilled [] n) (zeroed_shares count 1)) (sym len)
          (zeroed-IsFilled count 1))
        e in
    let same = s.same_indices ∙ zeroed_indices count 1 in
    record {
      polys = s.polys;
      same_secret = s.same_secret;
      good =
          subst (λ t. All (IsPolyOf t) s.polys) {x = suc (threshold - 1)} (omega (arith, pos))
            s.good;
      numbered = same;
      shown =
          shares_of s.polys out.0
            (subst (All IsCoordinate) (sym same)
              (numbers-bounded count 1 (omega arith) (omega (arith, few))))
            s.values;
    }

abbrev pub IsOneOf : Share → List Share → Type 0
IsOneOf s [] = ⊥
IsOneOf s (r ∷ rs) = (s ≡ r) ⊎ IsOneOf s rs

one_of :
    (P : Share → Type 0) (s : Share) (shares : List Share) → IsOneOf s shares → All P shares → P s
one_of P s [] m h = elim m [ ]
one_of P s (r ∷ rs) (inl e) h = subst P (sym e) h.0
one_of P s (r ∷ rs) (inr m) h = one_of P s rs m h.1

All-of :
    (P : Share → Type 0) (chosen shares : List Share)
    → All (λ s. IsOneOf s shares) chosen
    → All P shares
    → All P chosen
All-of P [] shares m h = tt
All-of P (c ∷ chosen) shares m h = (one_of P c shares m.0 h, All-of P chosen shares m.1 h)

-- Whatever bytes the generator gave: if `split` shares a secret of 32 bytes, then any of its
-- shares, with no coordinate twice and at least as many as the threshold (at most 31), in any
-- order, reconstruct the secret.
pub reconstruct-split :
    {R : Type 0} (fill : R → ℕ → Option (List ℕ × R)) (secret : List ℕ) (threshold count : ℕ)
    (rng : R) (out : List Share × R) (chosen : List Share)
    → Fills fill
    → length secret ≡ secret_len
    → AreBytes secret
    → split fill secret threshold count rng ≡ ok out
    → All (λ s. IsOneOf s out.0) chosen
    → IsDistinct (indices chosen)
    → threshold ≤ length chosen
    → length chosen ≤ max_shares
    → reconstruct threshold chosen ≡ ok secret
reconstruct-split fill secret threshold count rng out chosen fills len bytes h among d enough few =
    let s = split-AreSharesOf fill secret threshold count rng out fills len bytes h in
    reconstruct_lem threshold s.polys chosen
      (sym (length-map (λ (p : Poly). p.0) s.polys) ∙ ap length s.same_secret ∙ len) s.good
      (split_passes fill secret threshold count rng out h).0 enough few d
      (All-of (IsShareOf s.polys) chosen out.0 among s.shown)
    ∙ ap ok s.same_secret
