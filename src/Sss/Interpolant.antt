-- ===== src/Sss/Interpolant.antt =====
-- The sum that `weights` and `weighted_sum` of crates/leelo-sss/src/interpolation.rs compute, over
-- any field: it is the polynomial through its nodes.
use leelo.Base.{
  suc, ◌+◌, ◌≡◌, refl, sym, ◌∙◌, ap, ap₂, List, [], ◌∷◌, length, All, inl, inr, arith, subst,
}
use leelo.Sss.Polynomial.{
  Field, IsPoly, IsPoly-ext, IsPoly-sum, IsPoly-nil, nil-plus, times-nil, nil-times, sum_nil→eq,
  times_nonzero, times_left_comm,
}
use leelo.Sss.Lagrange.{
  IsIn, AreApart, IsApart-later, vanishes, product, product-zero, product_nonzero, product-IsPoly,
}

module _ {K : Type 0} (F : Field K) where
  infixl 60 ◌⊞◌
  abbrev ◌⊞◌ : K → K → K
  a ⊞ b = F.plus a b

  infixl 70 ◌⊠◌
  abbrev ◌⊠◌ : K → K → K
  a ⊠ b = F.times a b

  -- The weight of `x` at `t`; the other nodes are those before and after it.
  abbrev pub node_weight : List K → List K → K → K → K
  node_weight before rest x t =
      (product F before t ⊠ product F rest t) ⊠ F.inverse (product F before x ⊠ product F rest x)

  unfoldable pub interpolant : (K → K) → List K → List K → K → K
  interpolant f before [] t = F.nil
  interpolant f before (x ∷ xs) t =
      f x ⊠ node_weight before xs x t ⊞ interpolant f (x ∷ before) xs t

  term-IsPoly :
      (f : K → K) (before xs : List K) (x : K)
      → IsPoly F (length before + suc (length xs)) (λ t. f x ⊠ node_weight before xs x t)
  unfolding IsPoly
  term-IsPoly f before xs x =
      let i = F.inverse (product F before x ⊠ product F xs x) in
      IsPoly-ext F (length before + suc (length xs))
        (λ t. product F before t ⊠ (product F xs t ⊠ (f x ⊠ i)))
        (λ t. f x ⊠ node_weight before xs x t)
        (λ t.
          times_left_comm F (f x) (product F before t ⊠ product F xs t) i
          ∙ F.times_assoc (product F before t) (product F xs t) (f x ⊠ i))
        (product-IsPoly F (suc (length xs)) before (λ t. product F xs t ⊠ (f x ⊠ i))
          (subst (λ k. IsPoly F k (λ t. product F xs t ⊠ (f x ⊠ i))) {y = suc (length xs)}
            (omega arith)
            (product-IsPoly F 1 xs (λ t. f x ⊠ i)
              (
                f x ⊠ i,
                λ t. F.nil,
                λ t. refl,
                λ t. sym (ap (λ y. (f x ⊠ i) ⊞ y) (times-nil F t) ∙ F.plus-nil (f x ⊠ i)),
              ))))

  pub interpolant-IsPoly :
      (f : K → K) (before xs : List K)
      → IsPoly F (length before + length xs) (interpolant f before xs)
  unfolding interpolant
  interpolant-IsPoly f before [] = IsPoly-nil F (length before + 0) (λ t. F.nil) (λ t. refl)
  interpolant-IsPoly f before (x ∷ xs) =
      IsPoly-sum F (length before + suc (length xs)) (λ t. f x ⊠ node_weight before xs x t)
        (interpolant f (x ∷ before) xs) (term-IsPoly f before xs x)
        (subst (λ k. IsPoly F k (interpolant f (x ∷ before) xs)) (omega arith)
          (interpolant-IsPoly f (x ∷ before) xs))

  weight-zero :
      (before xs : List K) (x t : K)
      → product F before t ⊠ product F xs t ≡ F.nil
      → node_weight before xs x t ≡ F.nil
  weight-zero before xs x t h =
      ap (λ y. y ⊠ F.inverse (product F before x ⊠ product F xs x)) h ∙ nil-times F _

  term-zero :
      (f : K → K) (before xs : List K) (x t rest : K)
      → product F before t ⊠ product F xs t ≡ F.nil
      → f x ⊠ node_weight before xs x t ⊞ rest ≡ rest
  term-zero f before xs x t rest h =
      ap (λ y. f x ⊠ y ⊞ rest) (weight-zero before xs x t h)
      ∙ ap (λ y. y ⊞ rest) (times-nil F (f x))
      ∙ nil-plus F rest

  interpolant-before :
      (f : K → K) (before xs : List K) (y : K) → IsIn F y before → interpolant f before xs y ≡ F.nil
  unfolding interpolant
  interpolant-before f before [] y m = refl
  interpolant-before f before (x ∷ xs) y m =
      term-zero f before xs x y _
        (ap (λ z. z ⊠ product F xs y) (product-zero F before y m) ∙ nil-times F (product F xs y))
      ∙ interpolant-before f (x ∷ before) xs y (inr m)

  -- At a node, the node's own value.
  pub interpolant_node :
      (f : K → K) (before xs : List K)
      → AreApart F before xs
      → (y : K) → IsIn F y xs
      → interpolant f before xs y ≡ f y
  unfolding interpolant AreApart
  interpolant_node f before [] d y m = elim m [ ]
  interpolant_node f before (x ∷ xs) d y (inr m) =
      term-zero f before xs x y _ (
        ap (λ z. product F before y ⊠ z) (product-zero F xs y m) ∙ times-nil F (product F before y))
      ∙ interpolant_node f (x ∷ before) xs d.1 y m
  interpolant_node f before (x ∷ xs) d y (inl e) =
      subst (λ z. interpolant f before (x ∷ xs) z ≡ f z) (sym e)
        (ap₂ F.plus
            (ap (λ z. f x ⊠ z)
                (F.times-inverse _ (
                  times_nonzero F _ _ (product_nonzero F before x d.0)
                    (product_nonzero F xs x (IsApart-later F x (x ∷ before) xs (inl refl) d.1))))
              ∙ F.times-one (f x))
            (interpolant-before f (x ∷ before) xs x (inl refl))
          ∙ F.plus-nil (f x))

  All-zero :
      (f g : K → K) (xs : List K)
      → ((y : K) → IsIn F y xs → g y ≡ f y)
      → All (λ y. f y ⊞ g y ≡ F.nil) xs
  All-zero f g [] h = tt
  All-zero f g (x ∷ xs) h =
      (ap (λ z. f x ⊞ z) (h x (inl refl)) ∙ F.plus_self (f x), All-zero f g xs (λ y m. h y (inr m)))

  -- A polynomial with no more coefficients than nodes is its own interpolation.
  pub interpolant_lem :
      (f : K → K) (xs : List K)
      → IsPoly F (length xs) f
      → AreApart F [] xs
      → (t : K) → interpolant f [] xs t ≡ f t
  interpolant_lem f xs p d t = sym (
      sum_nil→eq F (f t) (interpolant f [] xs t) (
        vanishes F xs [] (λ y. f y ⊞ interpolant f [] xs y)
          (IsPoly-sum F (length xs) f (interpolant f [] xs) p (
            subst (λ k. IsPoly F k (interpolant f [] xs)) (omega arith)
              (interpolant-IsPoly f [] xs)))
          d (All-zero f (interpolant f [] xs) xs (interpolant_node f [] xs d)) t))
