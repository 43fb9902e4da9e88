-- ===== src/Sss/Polynomial.antt =====
-- Polynomials over a field where every element is its own negative, as functions of a bounded
-- degree, for the interpolation of crates/leelo-sss/src/interpolation.rs.
use leelo.Base.{ℕ, zero, suc, ◌≡◌, refl, sym, ◌∙◌, ap, ap₂}

pub record Field (K : Type 0) : Type 0 where
  pub nil : K
  pub one : K
  pub plus : K → K → K
  pub times : K → K → K
  pub inverse : K → K
  pub plus_assoc : (a b c : K) → plus (plus a b) c ≡ plus a (plus b c)
  pub plus_comm : (a b : K) → plus a b ≡ plus b a
  pub plus-nil : (a : K) → plus a nil ≡ a
  pub plus_self : (a : K) → plus a a ≡ nil
  pub times_assoc : (a b c : K) → times (times a b) c ≡ times a (times b c)
  pub times_comm : (a b : K) → times a b ≡ times b a
  pub times-one : (a : K) → times a one ≡ a
  pub times-plus : (a b c : K) → times a (plus b c) ≡ plus (times a b) (times a c)
  pub times-inverse : (a : K) → ¬ (a ≡ nil) → times a (inverse a) ≡ one
  pub one_nonzero : ¬ (one ≡ nil)

module _ {K : Type 0} (F : Field K) where
  infixl 60 ◌⊞◌
  abbrev ◌⊞◌ : K → K → K
  a ⊞ b = F.plus a b

  infixl 70 ◌⊠◌
  abbrev ◌⊠◌ : K → K → K
  a ⊠ b = F.times a b

  pub nil-plus : (a : K) → F.nil ⊞ a ≡ a
  nil-plus a = F.plus_comm F.nil a ∙ F.plus-nil a

  pub plus-times : (a b c : K) → (a ⊞ b) ⊠ c ≡ a ⊠ c ⊞ b ⊠ c
  plus-times a b c =
      F.times_comm (a ⊞ b) c ∙ F.times-plus c a b ∙ ap₂ F.plus (F.times_comm c a) (F.times_comm c b)

  -- What is added twice is gone.
  pub plus_cancel : (a b : K) → a ⊞ (a ⊞ b) ≡ b
  plus_cancel a b = sym (F.plus_assoc a a b) ∙ ap (λ t. t ⊞ b) (F.plus_self a) ∙ nil-plus b

  pub times-nil : (a : K) → a ⊠ F.nil ≡ F.nil
  times-nil a =
      sym (plus_cancel (a ⊠ F.nil) (a ⊠ F.nil))
      ∙ ap (λ t. a ⊠ F.nil ⊞ t)
          (sym (F.times-plus a F.nil F.nil) ∙ ap (λ t. a ⊠ t) (F.plus-nil F.nil))
      ∙ F.plus_self (a ⊠ F.nil)

  pub nil-times : (a : K) → F.nil ⊠ a ≡ F.nil
  nil-times a = F.times_comm F.nil a ∙ times-nil a

  pub sum_nil→eq : (a b : K) → a ⊞ b ≡ F.nil → a ≡ b
  sum_nil→eq a b h = sym (F.plus-nil a) ∙ ap (λ t. a ⊞ t) (sym h) ∙ plus_cancel a b

  -- A nonzero factor cancels.
  pub times_nil_right : (a b : K) → ¬ (a ≡ F.nil) → a ⊠ b ≡ F.nil → b ≡ F.nil
  times_nil_right a b nonzero h =
      sym (F.times-one b)
      ∙ F.times_comm b F.one
      ∙ ap (λ t. t ⊠ b) (sym (F.times-inverse a nonzero) ∙ F.times_comm a (F.inverse a))
      ∙ F.times_assoc (F.inverse a) a b
      ∙ ap (λ t. F.inverse a ⊠ t) h
      ∙ times-nil (F.inverse a)

  pub times_nonzero : (a b : K) → ¬ (a ≡ F.nil) → ¬ (b ≡ F.nil) → ¬ (a ⊠ b ≡ F.nil)
  times_nonzero a b ha hb h = hb (times_nil_right a b ha h)

  pub plus_swap : (a b c d : K) → (a ⊞ b) ⊞ (c ⊞ d) ≡ (a ⊞ c) ⊞ (b ⊞ d)
  plus_swap a b c d =
      F.plus_assoc a b (c ⊞ d)
      ∙ ap (λ t. a ⊞ t)
          (sym (F.plus_assoc b c d) ∙ ap (λ t. t ⊞ d) (F.plus_comm b c) ∙ F.plus_assoc c b d)
      ∙ sym (F.plus_assoc a c (b ⊞ d))

  -- `f` is a polynomial with at most `n` coefficients.
  unfoldable pub IsPoly : ℕ → (K → K) → Type 0
  IsPoly zero f = (t : K) → f t ≡ F.nil
  IsPoly (suc n) f = (c : K) × (g : K → K) × IsPoly n g × ((t : K) → f t ≡ c ⊞ t ⊠ g t)

  pub IsPoly-ext : (n : ℕ) (f g : K → K) → ((t : K) → g t ≡ f t) → IsPoly n f → IsPoly n g
  unfolding IsPoly
  IsPoly-ext zero f g e p = λ t. e t ∙ p t
  IsPoly-ext (suc n) f g e (c, q, p, h) = (c, q, p, λ t. e t ∙ h t)

  pub IsPoly-sum : (n : ℕ) (f g : K → K) → IsPoly n f → IsPoly n g → IsPoly n (λ t. f t ⊞ g t)
  unfolding IsPoly
  IsPoly-sum zero f g p q = λ t. ap₂ F.plus (p t) (q t) ∙ F.plus-nil F.nil
  IsPoly-sum (suc n) f g (c, f', p, hf) (d, g', q, hg) = (
    c ⊞ d,
    λ t. f' t ⊞ g' t,
    IsPoly-sum n f' g' p q,
    λ t.
        ap₂ F.plus (hf t) (hg t)
        ∙ plus_swap c (t ⊠ f' t) d (t ⊠ g' t)
        ∙ ap (λ x. (c ⊞ d) ⊞ x) (sym (F.times-plus t (f' t) (g' t))),
  )

  pub times_left_comm : (a b c : K) → a ⊠ (b ⊠ c) ≡ b ⊠ (a ⊠ c)
  times_left_comm a b c =
      sym (F.times_assoc a b c) ∙ ap (λ t. t ⊠ c) (F.times_comm a b) ∙ F.times_assoc b a c

  pub IsPoly-scale : (n : ℕ) (k : K) (f : K → K) → IsPoly n f → IsPoly n (λ t. k ⊠ f t)
  unfolding IsPoly
  IsPoly-scale zero k f p = λ t. ap (λ x. k ⊠ x) (p t) ∙ times-nil k
  IsPoly-scale (suc n) k f (c, f', p, h) = (
    k ⊠ c,
    λ t. k ⊠ f' t,
    IsPoly-scale n k f' p,
    λ t.
        ap (λ x. k ⊠ x) (h t)
        ∙ F.times-plus k c (t ⊠ f' t)
        ∙ ap (λ x. k ⊠ c ⊞ x) (times_left_comm k t (f' t)),
  )

  pub IsPoly-nil : (n : ℕ) (f : K → K) → ((t : K) → f t ≡ F.nil) → IsPoly n f
  unfolding IsPoly
  IsPoly-nil zero f h = h
  IsPoly-nil (suc n) f h = (
    F.nil,
    λ t. F.nil,
    IsPoly-nil n (λ t. F.nil) (λ t. refl),
    λ t. h t ∙ sym (nil-plus (t ⊠ F.nil) ∙ times-nil t),
  )

  pub IsPoly-more : (n : ℕ) (f : K → K) → IsPoly n f → IsPoly (suc n) f
  unfolding IsPoly
  IsPoly-more zero f p = IsPoly-nil (suc zero) f p
  IsPoly-more (suc n) f (c, g, p, h) = (c, g, IsPoly-more n g p, h)

  -- One more root.
  pub IsPoly-root : (n : ℕ) (a : K) (f : K → K) → IsPoly n f → IsPoly (suc n) (λ t. (t ⊞ a) ⊠ f t)
  unfolding IsPoly
  IsPoly-root n a f p =
      IsPoly-ext (suc n) (λ t. t ⊠ f t ⊞ a ⊠ f t) (λ t. (t ⊞ a) ⊠ f t) (λ t. plus-times t a (f t))
        (IsPoly-sum (suc n) (λ t. t ⊠ f t) (λ t. a ⊠ f t)
          ((F.nil, f, p, λ t. sym (nil-plus (t ⊠ f t))))
          (IsPoly-more n (λ t. a ⊠ f t) (IsPoly-scale n a f p)))
