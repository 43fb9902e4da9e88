-- ===== src/Sss/Lagrange.antt =====
-- Lagrange interpolation, for crates/leelo-sss/src/interpolation.rs: a polynomial with at most n
-- coefficients is the weighted sum of its values at n distinct nodes.
use leelo.Base.{
  ℕ, zero, suc, ◌≡◌, refl, sym, ◌∙◌, ap, ap₂, List, [], ◌∷◌, length, All, ◌⊎◌, inl, inr, arith,
  subst, ◌+◌,
}
use leelo.Sss.Polynomial.{
  Field, IsPoly, IsPoly-ext, IsPoly-root, nil-plus, plus-times, plus_cancel, times-nil, nil-times,
  sum_nil→eq, times_nil_right, times_nonzero, plus_swap,
}

module _ {K : Type 0} (F : Field K) where
  infixl 60 ◌⊞◌
  abbrev ◌⊞◌ : K → K → K
  a ⊞ b = F.plus a b

  infixl 70 ◌⊠◌
  abbrev ◌⊠◌ : K → K → K
  a ⊠ b = F.times a b

  -- What a polynomial differs by from its value at `a`, divided by the distance to `a`.
  divide :
      (n : ℕ) (f : K → K) (a : K)
      → IsPoly F (suc n) f
      → (q : K → K) × IsPoly F n q × ((t : K) → f t ⊞ f a ≡ (t ⊞ a) ⊠ q t)
  unfolding IsPoly
  divide zero f a (c, g, p, h) = (
    λ t. F.nil,
    λ t. refl,
    λ t. ap₂ F.plus (constant t) (constant a) ∙ F.plus_self c ∙ sym (times-nil F (t ⊞ a)),
  )
    where
      constant : (t : K) → f t ≡ c
      constant t = h t ∙ ap (λ x. c ⊞ t ⊠ x) (p t) ∙ ap (λ x. c ⊞ x) (times-nil F t) ∙ F.plus-nil c
  divide (suc n) f a (c, g, p, h) =
      let (q, r, e) = divide n g a p in
      (
        λ t. g a ⊞ t ⊠ q t,
        (g a, q, r, λ t. refl),
        λ t.
            ap₂ F.plus (h t) (h a)
            ∙ plus_swap F c (t ⊠ g t) c (a ⊠ g a)
            ∙ ap (λ x. x ⊞ (t ⊠ g t ⊞ a ⊠ g a)) (F.plus_self c)
            ∙ nil-plus F _
            ∙ ap (λ x. t ⊠ x ⊞ a ⊠ g a) (value t (q t) (e t))
            ∙ regroup t (g a) (q t),
      )
    where
      value : (t y : K) → g t ⊞ g a ≡ (t ⊞ a) ⊠ y → g t ≡ g a ⊞ (t ⊞ a) ⊠ y
      value t y e =
          sym (plus_cancel F (g a) (g t)) ∙ ap (λ x. g a ⊞ x) (F.plus_comm (g a) (g t) ∙ e)

      regroup : (t u y : K) → t ⊠ (u ⊞ (t ⊞ a) ⊠ y) ⊞ a ⊠ u ≡ (t ⊞ a) ⊠ (u ⊞ t ⊠ y)
      regroup t u y =
          ap (λ x. x ⊞ a ⊠ u) (F.times-plus t u ((t ⊞ a) ⊠ y))
          ∙ F.plus_assoc (t ⊠ u) (t ⊠ ((t ⊞ a) ⊠ y)) (a ⊠ u)
          ∙ ap (λ x. t ⊠ u ⊞ x) (F.plus_comm _ _)
          ∙ sym (F.plus_assoc (t ⊠ u) (a ⊠ u) _)
          ∙ ap₂ F.plus (sym (plus-times F t a u)) (
              sym (F.times_assoc t (t ⊞ a) y)
              ∙ ap (λ x. x ⊠ y) (F.times_comm t (t ⊞ a))
              ∙ F.times_assoc (t ⊞ a) t y)
          ∙ sym (F.times-plus (t ⊞ a) u (t ⊠ y))

  abbrev pub IsIn : K → List K → Type 0
  IsIn x [] = ⊥
  IsIn x (y ∷ ys) = (x ≡ y) ⊎ IsIn x ys

  abbrev pub IsApart : K → List K → Type 0
  IsApart x xs = All (λ y. ¬ (x ≡ y)) xs

  -- Each of `xs` is apart from those before it, which `before` continues backwards.
  unfoldable pub AreApart : List K → List K → Type 0
  AreApart before [] = Unit
  AreApart before (x ∷ xs) = IsApart x before × AreApart (x ∷ before) xs

  pub IsApart-later :
      (x : K) (before xs : List K) → IsIn x before → AreApart before xs → IsApart x xs
  unfolding AreApart
  IsApart-later x before [] m d = tt
  IsApart-later x before (y ∷ ys) m d =
      (apart_from x y before m d.0, IsApart-later x (y ∷ before) ys (inr m) d.1)
    where
      apart_from : (x y : K) (zs : List K) → IsIn x zs → IsApart y zs → ¬ (x ≡ y)
      apart_from x y [] m d same = elim m [ ]
      apart_from x y (z ∷ zs) (inl e) d same = d.0 (sym same ∙ e)
      apart_from x y (z ∷ zs) (inr m) d same = apart_from x y zs m d.1 same

  -- A polynomial with no more coefficients than it has distinct roots is zero.
  pub vanishes :
      (xs : List K) (before : List K) (f : K → K)
      → IsPoly F (length xs) f
      → AreApart before xs
      → All (λ x. f x ≡ F.nil) xs
      → (t : K) → f t ≡ F.nil
  unfolding IsPoly AreApart
  vanishes [] before f p d z t = p t
  vanishes (x ∷ xs) before f p d z t =
      let (q, r, e) = divide (length xs) f x p in
      sym (F.plus-nil (f t))
      ∙ ap (λ y. f t ⊞ y) (sym z.0)
      ∙ e t
      ∙ ap (λ y. (t ⊞ x) ⊠ y)
          (vanishes xs (x ∷ before) q r d.1
            (roots xs q e (IsApart-later x (x ∷ before) xs (inl refl) d.1) z.1) t)
      ∙ times-nil F (t ⊞ x)
    where
      roots :
          (ys : List K) (q : K → K)
          → ((t : K) → f t ⊞ f x ≡ (t ⊞ x) ⊠ q t)
          → IsApart x ys
          → All (λ y. f y ≡ F.nil) ys
          → All (λ y. q y ≡ F.nil) ys
      roots [] q e a h = tt
      roots (y ∷ ys) q e a h = (
        times_nil_right F (y ⊞ x) (q y) (λ same. a.0 (sym (sum_nil→eq F y x same)))
            (sym (e y) ∙ ap₂ F.plus h.0 z.0 ∙ F.plus-nil F.nil),
        roots ys q e a.1 h.1,
      )

  -- The product of the distances of `t` to the nodes.
  unfoldable pub product : List K → K → K
  product [] t = F.one
  product (x ∷ xs) t = (t ⊞ x) ⊠ product xs t

  pub product-zero : (xs : List K) (t : K) → IsIn t xs → product xs t ≡ F.nil
  unfolding product
  product-zero [] t m = elim m [ ]
  product-zero (x ∷ xs) t (inl e) =
      ap (λ y. (t ⊞ y) ⊠ product xs t) (sym e)
      ∙ ap (λ y. y ⊠ product xs t) (F.plus_self t)
      ∙ nil-times F (product xs t)
  product-zero (x ∷ xs) t (inr m) =
      ap (λ y. (t ⊞ x) ⊠ y) (product-zero xs t m) ∙ times-nil F (t ⊞ x)

  pub product_nonzero : (xs : List K) (t : K) → IsApart t xs → ¬ (product xs t ≡ F.nil)
  unfolding product
  product_nonzero [] t a = F.one_nonzero
  product_nonzero (x ∷ xs) t a =
      times_nonzero F (t ⊞ x) (product xs t) (λ same. a.0 (sum_nil→eq F t x same))
        (product_nonzero xs t a.1)

  pub product-IsPoly :
      (n : ℕ) (xs : List K) (f : K → K)
      → IsPoly F n f
      → IsPoly F (length xs + n) (λ t. product xs t ⊠ f t)
  unfolding product
  product-IsPoly n [] f p =
      IsPoly-ext F (0 + n) f (λ t. F.one ⊠ f t) (λ t. F.times_comm F.one (f t) ∙ F.times-one (f t))
        (subst (λ k. IsPoly F k f) (omega arith) p)
  product-IsPoly n (x ∷ xs) f p =
      subst (λ k. IsPoly F k (λ t. product (x ∷ xs) t ⊠ f t)) (omega arith)
        (IsPoly-ext F (suc (length xs + n)) (λ t. (t ⊞ x) ⊠ (product xs t ⊠ f t))
          (λ t. product (x ∷ xs) t ⊠ f t) (λ t. F.times_assoc (t ⊞ x) (product xs t) (f t))
          (IsPoly-root F (length xs + n) x (λ t. product xs t ⊠ f t) (product-IsPoly n xs f p)))
