-- ===== src/Sss/Tests.antt =====
-- The arithmetic and the sharing of crates/leelo-sss, run: 32 bytes in three shares of which two
-- are enough, by a generator that gives the byte 1.
use leelo.Base.{
  ◌↔◌, ◌<◌, ◌≤◌, ℕ, zero, suc, ◌+◌, ◌≡◌, refl, List, [], ◌∷◌, map, length, length-replicate,
  replicate, arith, Option, some, some_injective, ok, err, ap, subst, inl, inr,
}
use leelo.Sss.Gf256.{mul, inverse_nonzero, ◌⊕◌, xtime, masked}
use leelo.Sss.Linear.{mul-xor_right}
use leelo.Sss.Field.{mul_comm, mul_assoc, mul-inverse}
use leelo.Sss.Share.{max_shares, Share, inconsistent_shares, duplicate_index}
use leelo.Sss.Interpolation.{evaluate, weights, weighted_sum}
use leelo.Sss.Nodes.{AreBytes, IsDistinct, weighted_sum-weights}
use leelo.Sss.Accepted.{IsTypedShare, AreOnPolys, reconstruct_iff}
use leelo.Sss.Secrecy.{Fitting, evaluate-Fitting}
use leelo.Sss.Sharing.{split, reconstruct}
use leelo.Sss.Splitting.{Fills}
use leelo.Sss.RoundTrip.{AreSharesOf, split-AreSharesOf, reconstruct-split}

abbrev ones : ℕ → ℕ → Option (List ℕ × ℕ)
ones r n = some (replicate n 1, r + 1)

ones_bytes : (n : ℕ) → AreBytes (replicate n 1)
ones_bytes zero = tt
ones_bytes (suc n) = (omega arith, ones_bytes n)

ones-Fills : Fills ones
ones-Fills r n bs r' h =
    let e : replicate n 1 ≡ bs = ap (λ (z : List ℕ × ℕ). z.0) (some_injective h) in
    subst (λ ys. (length ys ≡ n) × AreBytes ys) e (length-replicate n 1, ones_bytes n)

secret_bytes : (n : ℕ) → AreBytes (replicate n 42)
secret_bytes zero = tt
secret_bytes (suc n) = (omega arith, secret_bytes n)

abbrev secret : List ℕ
secret = replicate 32 42

abbrev share : ℕ → ℕ → Share
share index byte = record { index = index; value = replicate 32 byte }

abbrev three : List Share
three = share 1 43 ∷ share 2 40 ∷ share 3 41 ∷ []

split_run : split ones secret 2 3 0 ≡ ok (three, 32)
unfolding split mul masked xtime evaluate
split_run = refl

-- A third share that disagrees is noticed, and so is a share that is given twice.
disagreeing : reconstruct 2 (share 3 41 ∷ share 1 43 ∷ share 2 7 ∷ []) ≡ err inconsistent_shares
unfolding reconstruct mul masked xtime inverse_nonzero
disagreeing = refl

twice : reconstruct 2 (share 3 41 ∷ share 3 41 ∷ []) ≡ err (duplicate_index 3)
unfolding reconstruct mul masked xtime inverse_nonzero
twice = refl

reconstruct-split_example : reconstruct 2 (share 3 41 ∷ share 1 43 ∷ []) ≡ ok secret
reconstruct-split_example =
    reconstruct-split ones secret 2 3 0 (three, 32) (share 3 41 ∷ share 1 43 ∷ []) ones-Fills refl
      (secret_bytes 32) split_run (inr (inr (inl refl)), (inl refl, tt))
      (((λ e. absurd (omega (arith, e))), tt), (tt, tt)) (omega arith) (omega arith)

split-AreSharesOf_example : AreSharesOf secret 2 3 three
split-AreSharesOf_example =
    split-AreSharesOf ones secret 2 3 0 (three, 32) ones-Fills refl (secret_bytes 32) split_run

weighted_sum-weights_example :
    weighted_sum (map (evaluate 42 (7 ∷ 9 ∷ [])) (1 ∷ 5 ∷ 3 ∷ [])) (weights (1 ∷ 5 ∷ 3 ∷ []) 0)
    ≡ evaluate 42 (7 ∷ 9 ∷ []) 0
weighted_sum-weights_example =
    weighted_sum-weights 42 (7 ∷ 9 ∷ []) (1 ∷ 5 ∷ 3 ∷ []) 0 (omega arith)
      (omega arith, (omega arith, tt)) (omega arith, (omega arith, (omega arith, tt))) (omega arith)
      (omega arith)
      (
        ((λ e. absurd (omega (arith, e))), ((λ e. absurd (omega (arith, e))), tt)),
        (((λ e. absurd (omega (arith, e))), tt), (tt, tt)),
      )

mul_comm_example : mul 0x57 0x83 ≡ mul 0x83 0x57
mul_comm_example = mul_comm 0x57 0x83 (omega arith) (omega arith)

mul_assoc_example : mul (mul 0x57 0x83) 0x1b ≡ mul 0x57 (mul 0x83 0x1b)
mul_assoc_example = mul_assoc 0x57 0x83 0x1b (omega arith) (omega arith) (omega arith)

mul-inverse_example : mul 0x53 (inverse_nonzero 0x53) ≡ 1
mul-inverse_example = mul-inverse 0x53 (omega arith) (omega arith)

mul-xor_right_example : mul 0x57 (0x83 ⊕ 0x1b) ≡ mul 0x57 0x83 ⊕ mul 0x57 0x1b
mul-xor_right_example = mul-xor_right 0x57 0x83 0x1b (omega arith) (omega arith) (omega arith)

evaluate-Fitting_example : Fitting 42 (7 ∷ []) 99 (3 ∷ [])
evaluate-Fitting_example =
    evaluate-Fitting 42 99 (7 ∷ []) (3 ∷ []) (omega arith) (omega arith) (omega arith, tt)
      (omega arith, tt) (omega arith, tt) (omega arith)

replicate_bytes : (n b : ℕ) → b < 256 → AreBytes (replicate n b)
replicate_bytes zero b h = tt
replicate_bytes (suc n) b h = (h, replicate_bytes n b h)

share-IsTypedShare : (i b : ℕ) → i < 256 → b < 256 → IsTypedShare (share i b)
share-IsTypedShare i b hi hb = (hi, length-replicate 32 b, replicate_bytes 32 b hb)

-- Three shares, one more than the threshold.
reconstruct_iff_example :
    (reconstruct 2 (share 3 41 ∷ share 1 43 ∷ share 2 40 ∷ []) ≡ ok secret) ↔ (
      (0 < 2)
      × (2 ≤ 3)
      × (3 ≤ max_shares)
      × IsDistinct (3 ∷ 1 ∷ 2 ∷ [])
      × AreOnPolys 2 (share 3 41 ∷ share 1 43 ∷ share 2 40 ∷ []) secret)
reconstruct_iff_example = reconstruct_iff 2 (share 3 41 ∷ share 1 43 ∷ share 2 40 ∷ []) secret (
  share-IsTypedShare 3 41 (omega arith) (omega arith),
  (
    share-IsTypedShare 1 43 (omega arith) (omega arith),
    (share-IsTypedShare 2 40 (omega arith) (omega arith), tt),
  ),
)
