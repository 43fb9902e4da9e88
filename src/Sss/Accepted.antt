-- ===== src/Sss/Accepted.antt =====
-- What `reconstruct` of crates/leelo-sss/src/lib.rs accepts.
use leelo.Base.{
  ℕ, zero, suc, ◌-◌, ◌<◌, ◌≤◌, ◌≡◌, ◌↔◌, sym, ◌∙◌, ap, subst, false, List, [], ◌∷◌, map, length,
  length-map, length-take, arith, All, take, drop, ok,
}
use leelo.Sss.Share.{Share, max_shares, secret_len}
use leelo.Sss.Interpolation.{evaluate}
use leelo.Sss.Nodes.{AreBytes, IsDistinct}
use leelo.Sss.Sharing.{
  validate_threshold, any_index, check_indices, surplus_loop, interpolate, reconstruct,
}
use leelo.Sss.Recovery.{
  Poly, IsPolyOf, IsShareOf, values_of, secret_of, indices, AllDiffer, interpolate-values,
  values_of-zero,
}
use leelo.Sss.Reconstruct.{All-take, All-drop, IsDistinct-take, indices-take, reconstruct_lem}
use leelo.Sss.Disagreement.{surplus_loop-zero}
use leelo.Sss.Fit.{Agree, fit_polys}

any_index-differs :
    (i : ℕ) (before : List Share)
    → any_index i before ≡ false
    → All (λ j. ¬ (i ≡ j)) (indices before)
unfolding any_index
any_index-differs i [] h = tt
any_index-differs i (s ∷ before) h = (λ e. ground arith, any_index-differs i before (ground arith))

AllDiffer-split :
    (x : ℕ) (before xs : List ℕ)
    → AllDiffer (x ∷ before) xs
    → All (λ y. ¬ (x ≡ y)) xs × AllDiffer before xs
AllDiffer-split x before [] h = (tt, tt)
AllDiffer-split x before (y ∷ ys) h =
    let (a, b) = AllDiffer-split x before ys h.1 in (((λ e. h.0.0 (sym e)), a), (h.0.1, b))

-- The checks of one share, from the success of the loop.
check_step :
    (before : List Share) (s : Share) (shares : List Share)
    → check_indices before (s ∷ shares) ≡ ok tt
    → (0 < s.index)
      × (any_index s.index before ≡ false)
      × (check_indices (s ∷ before) shares ≡ ok tt)
unfolding check_indices
check_step before s shares h = ground arith

check_indices-IsDistinct :
    (before shares : List Share)
    → check_indices before shares ≡ ok tt
    → AllDiffer (indices before) (indices shares)
      × IsDistinct (indices shares)
      × All (λ i. 0 < i) (indices shares)
check_indices-IsDistinct before [] h = (tt, tt, tt)
check_indices-IsDistinct before (s ∷ shares) h =
    let (pos, new, rest) = check_step before s shares h in
    let (differ, distinct, nonzero) = check_indices-IsDistinct (s ∷ before) shares rest in
    let (here, there) = AllDiffer-split s.index (indices before) (indices shares) differ in
    ((any_index-differs s.index before new, there), (here, distinct), (pos, nonzero))

reconstruct_passed :
    (threshold : ℕ) (shares : List Share) (secret : List ℕ)
    → reconstruct threshold shares ≡ ok secret
    → (0 < threshold)
      × (threshold ≤ length shares)
      × (length shares ≤ max_shares)
      × (check_indices [] shares ≡ ok tt)
      × (surplus_loop (take threshold shares) (drop threshold shares) 0 ≡ 0)
      × (interpolate (take threshold shares) 0 ≡ secret)
unfolding reconstruct validate_threshold
reconstruct_passed threshold shares secret h = ground arith

-- What the types of a share give: a byte for its coordinate, and 32 bytes.
abbrev pub IsTypedShare : Share → Type 0
IsTypedShare s = (s.index < 256) × (length s.value ≡ secret_len) × AreBytes s.value

-- One polynomial of `threshold` byte coefficients for each byte of the secret, the secret its
-- constants, through all of the shares.
abbrev pub AreOnPolys : ℕ → List Share → List ℕ → Type 0
AreOnPolys threshold shares secret =
    (polys : List Poly) × (length polys ≡ secret_len)
    × All (IsPolyOf threshold) polys
    × All (IsShareOf polys) shares
    × (secret_of polys ≡ secret)

module _ {A : Type 0} (P : A → Type 0) where
  All-take_drop : (n : ℕ) (xs : List A) → All P (take n xs) → All P (drop n xs) → All P xs
  All-take_drop zero xs front back = back
  All-take_drop (suc n) [] front back = tt
  All-take_drop (suc n) (x ∷ xs) front back = (front.0, All-take_drop n xs front.1 back)

typed_indices : (shares : List Share) → All IsTypedShare shares → AreBytes (indices shares)
typed_indices [] h = tt
typed_indices (s ∷ shares) h = (h.0.0, typed_indices shares h.1)

typed_rows :
    (shares : List Share)
    → All IsTypedShare shares
    → All (λ v. (length v ≡ secret_len) × AreBytes v) (map (λ (s : Share). s.value) shares)
typed_rows [] h = tt
typed_rows (s ∷ shares) h = ((h.0.1, h.0.2), typed_rows shares h.1)

Agree-IsShareOf :
    (polys : List Poly) (shares : List Share)
    → All IsTypedShare shares
    → All (λ i. 0 < i) (indices shares)
    → Agree polys (indices shares) (map (λ (s : Share). s.value) shares)
    → All (IsShareOf polys) shares
Agree-IsShareOf polys [] h nonzero a = tt
Agree-IsShareOf polys (s ∷ shares) h nonzero a =
    ((nonzero.0, h.0.0, a.0), Agree-IsShareOf polys shares h.1 nonzero.1 a.1)

positive_indices :
    (shares : List Share)
    → All (λ i. 0 < i) (indices shares)
    → All (λ (s : Share). 0 < s.index) shares
positive_indices [] h = tt
positive_indices (s ∷ shares) h = (h.0, positive_indices shares h.1)

index_positive :
    (shares : List Share)
    → All (λ (s : Share). 0 < s.index) shares
    → All (λ i. 0 < i) (indices shares)
index_positive [] h = tt
index_positive (s ∷ shares) h = (h.0, index_positive shares h.1)

-- Shares that a basis interpolates to lie on the basis's polynomials.
module _ (polys : List Poly) (basis : List Share)
    (given : (x : ℕ) → x < 256 → interpolate basis x ≡ values_of polys x) where
  same_lengths :
      (shares : List Share)
      → All IsTypedShare shares
      → length polys ≡ secret_len
      → All (λ s. length (interpolate basis s.index) ≡ length s.value) shares
  same_lengths [] h len = tt
  same_lengths (s ∷ shares) h len = (
    ap length (given s.index h.0.0)
        ∙ length-map (λ (p : Poly). evaluate p.0 p.1 s.index) polys
        ∙ len
        ∙ sym h.0.1,
    same_lengths shares h.1 len,
  )

  interpolated-IsShareOf :
      (shares : List Share)
      → All IsTypedShare shares
      → All (λ (s : Share). 0 < s.index) shares
      → All (λ s. interpolate basis s.index ≡ s.value) shares
      → All (IsShareOf polys) shares
  interpolated-IsShareOf [] h nonzero same = tt
  interpolated-IsShareOf (s ∷ shares) h nonzero same = (
    (nonzero.0, h.0.0, sym same.0 ∙ given s.index h.0.0),
    interpolated-IsShareOf shares h.1 nonzero.1 same.1,
  )

reconstruct-AreOnPolys :
    (threshold : ℕ) (shares : List Share) (secret : List ℕ)
    → All IsTypedShare shares
    → 0 < threshold
    → threshold ≤ length shares
    → IsDistinct (indices shares)
    → All (λ i. 0 < i) (indices shares)
    → surplus_loop (take threshold shares) (drop threshold shares) 0 ≡ 0
    → interpolate (take threshold shares) 0 ≡ secret
    → AreOnPolys threshold shares secret
reconstruct-AreOnPolys threshold shares secret typed pos enough d nonzero agree e =
    let basis = take threshold shares in
    let surplus = drop threshold shares in
    let size = length-take threshold shares enough in
    let positive = positive_indices shares nonzero in
    let basis_typed = All-take IsTypedShare threshold shares typed in
    let basis_distinct =
      subst IsDistinct (sym (indices-take threshold shares))
        (IsDistinct-take threshold (indices shares) d) in
    let (polys, len, good', fit) =
      fit_polys secret_len (threshold - 1) (indices basis) (map (λ (s : Share). s.value) basis)
        (typed_indices basis basis_typed) basis_distinct
        (omega (arith, size, pos, length-map (λ (s : Share). s.index) basis))
        (length-map (λ (s : Share). s.value) basis
          ∙ sym (length-map (λ (s : Share). s.index) basis))
        (typed_rows basis basis_typed) in
    let good =
      subst (λ t. All (IsPolyOf t) polys) {x = suc (threshold - 1)} {y = threshold}
        (omega (arith, pos)) good' in
    let shown =
      Agree-IsShareOf polys basis basis_typed
        (index_positive basis (All-take (λ (s : Share). 0 < s.index) threshold shares positive))
        fit in
    let given : (x : ℕ) → x < 256 → interpolate basis x ≡ values_of polys x = λ x small.
      interpolate-values threshold basis x polys small len size basis_distinct good shown in
    let surplus_typed = All-drop IsTypedShare threshold shares typed in
    let (_, same) =
      surplus_loop-zero basis surplus 0 (same_lengths polys basis given surplus surplus_typed len)
        agree in
    (
      polys,
      len,
      good,
      All-take_drop (IsShareOf polys) threshold shares shown (
          interpolated-IsShareOf polys basis given surplus surplus_typed
            (All-drop (λ (s : Share). 0 < s.index) threshold shares positive) same),
      sym (values_of-zero threshold polys good) ∙ sym (given 0 (omega arith)) ∙ e,
    )

-- On shares of the type's sizes, `reconstruct` succeeds exactly when the threshold is positive, the
-- shares are at least as many and at most 31, no coordinate occurs twice, and all of the shares, the
-- surplus ones included, have coordinates that are not 0 and lie on one polynomial of `threshold`
-- coefficients for each byte; the result is then the constants of those polynomials.
pub reconstruct_iff :
    (threshold : ℕ) (shares : List Share) (secret : List ℕ)
    → All IsTypedShare shares
    → (reconstruct threshold shares ≡ ok secret) ↔ (
        (0 < threshold)
        × (threshold ≤ length shares)
        × (length shares ≤ max_shares)
        × IsDistinct (indices shares)
        × AreOnPolys threshold shares secret)
reconstruct_iff threshold shares secret typed = (
  λ h.
      let (pos, enough, few, check, agree, e) = reconstruct_passed threshold shares secret h in
      let (_, distinct, nonzero) = check_indices-IsDistinct [] shares check in
      (
        pos,
        enough,
        few,
        distinct,
        reconstruct-AreOnPolys threshold shares secret typed pos enough distinct nonzero agree e,
      ),
  λ (pos, enough, few, distinct, (polys, len, good, shown, e)).
      reconstruct_lem threshold polys shares len good pos enough few distinct shown ∙ ap ok e,
)
