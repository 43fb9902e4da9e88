-- ===== src/Sss/Reconstruct.antt =====
-- `reconstruct` of crates/leelo-sss/src/lib.rs gives the secret back from enough shares of it.
use leelo.Base.{
  length-take, ℕ, zero, suc, ◌<◌, ◌≤◌, ◌≡◌, refl, sym, ◌∙◌, ap, subst, List, [], ◌∷◌, length, arith,
  All, take, drop, ok,
}
use leelo.Sss.Share.{Share, secret_len, max_shares}
use leelo.Sss.Nodes.{IsDistinct}
use leelo.Sss.Sharing.{validate_threshold, check_indices, surplus_loop, interpolate, reconstruct}
use leelo.Sss.Recovery.{
  Poly, IsPolyOf, IsShareOf, secret_of, indices, interpolate-values, values_of-zero,
  check_indices-ok, indices_positive, AllDiffer-nil, surplus_loop-agrees,
}

module _ {ℓ κ} {A : Type ℓ} (P : A → Type κ) where
  pub All-take : (n : ℕ) (xs : List A) → All P xs → All P (take n xs)
  All-take zero xs h = tt
  All-take (suc n) [] h = tt
  All-take (suc n) (x ∷ xs) h = (h.0, All-take n xs h.1)

  pub All-drop : (n : ℕ) (xs : List A) → All P xs → All P (drop n xs)
  All-drop zero xs h = h
  All-drop (suc n) [] h = tt
  All-drop (suc n) (x ∷ xs) h = All-drop n xs h.1

pub IsDistinct-take : (n : ℕ) (xs : List ℕ) → IsDistinct xs → IsDistinct (take n xs)
IsDistinct-take zero xs d = tt
IsDistinct-take (suc n) [] d = tt
IsDistinct-take (suc n) (x ∷ xs) d = (All-take (λ y. ¬ (x ≡ y)) n xs d.0, IsDistinct-take n xs d.1)

pub indices-take : (n : ℕ) (shares : List Share) → indices (take n shares) ≡ take n (indices shares)
indices-take zero shares = refl
indices-take (suc n) [] = refl
indices-take (suc n) (s ∷ shares) = ap (λ xs. s.index ∷ xs) (indices-take n shares)

-- The guards of `reconstruct`, one after the other.
pub reconstruct-passes :
    (threshold : ℕ) (shares : List Share)
    → 0 < threshold
    → threshold ≤ length shares
    → length shares ≤ max_shares
    → check_indices [] shares ≡ ok tt
    → surplus_loop (take threshold shares) (drop threshold shares) 0 ≡ 0
    → reconstruct threshold shares ≡ ok (interpolate (take threshold shares) 0)
unfolding reconstruct validate_threshold
reconstruct-passes threshold shares pos enough few check agree = ground arith

-- From shares of one secret of 32 bytes, with distinct nonzero byte coordinates, of which there
-- are at least the threshold (not 0) and at most 31, `reconstruct` returns that secret: from
-- exactly the threshold, and from more.
pub reconstruct_lem :
    (threshold : ℕ) (polys : List Poly) (shares : List Share)
    → length polys ≡ secret_len
    → All (IsPolyOf threshold) polys
    → 0 < threshold
    → threshold ≤ length shares
    → length shares ≤ max_shares
    → IsDistinct (indices shares)
    → All (IsShareOf polys) shares
    → reconstruct threshold shares ≡ ok (secret_of polys)
reconstruct_lem threshold polys shares len good pos enough few d shown =
    let basis_length = length-take threshold shares enough in
    let basis_distinct =
      subst IsDistinct (sym (indices-take threshold shares))
        (IsDistinct-take threshold (indices shares) d) in
    let basis_shown = All-take (IsShareOf polys) threshold shares shown in
    reconstruct-passes threshold shares pos enough few
      (check_indices-ok [] shares (indices_positive polys shares shown) d
        (AllDiffer-nil (indices shares)))
      (surplus_loop-agrees threshold polys (take threshold shares) (drop threshold shares) len
        basis_length basis_distinct good basis_shown
        (All-drop (IsShareOf polys) threshold shares shown))
    ∙ ap ok (
        interpolate-values threshold (take threshold shares) 0 polys (omega arith) len basis_length
          basis_distinct good basis_shown
        ∙ values_of-zero threshold polys good)
