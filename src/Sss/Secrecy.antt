-- ===== src/Sss/Secrecy.antt =====
-- What fewer shares than the threshold leave open, for `evaluate` of
-- crates/leelo-sss/src/interpolation.rs.
use leelo.Base.{
  ℕ, zero, suc, ◌+◌, ◌-◌, ◌<◌, ◌≤◌, ◌≡◌, refl, sym, ◌∙◌, ap, ap₂, subst, List, [], ◌∷◌, length,
  arith, All, inl, inr,
}
use leelo.Sss.Polynomial.{IsPoly, IsPoly-sum, nil-plus, plus_cancel, times-nil}
use leelo.Sss.Lagrange.{IsIn, IsApart, product, product-zero, product_nonzero, product-IsPoly}
use leelo.Sss.ByteField.{Byte, byte_field}
use leelo.Sss.Interpolation.{evaluate}
use leelo.Sss.Weights.{◌⊞◌, ◌⊠◌, raw, tail_value, value, evaluate-raw, IsPoly-value}
use leelo.Sss.Nodes.{AreBytes, lift, length-raw, IsPoly-add}

-- A polynomial has coefficients.
pub coefficients :
    (n : ℕ) (f : Byte → Byte)
    → IsPoly byte_field n f
    → (cs : List Byte) × (length cs ≡ n) × ((t : Byte) → f t ≡ tail_value cs t)
unfolding IsPoly
coefficients zero f p = ([], refl, p)
coefficients (suc n) f (c, g, p, h) =
    let (cs, len, e) = coefficients n g p in
    (
      c ∷ cs,
      ap suc len,
      λ t.
          h t
          ∙ byte_field.plus_comm c (t ⊠ g t)
          ∙ ap (λ y. y ⊞ c) (byte_field.times_comm t (g t) ∙ ap (λ y. y ⊠ t) (e t)),
    )

value-zero : (c : Byte) (cs : List Byte) → value c cs byte_field.nil ≡ c
value-zero c cs =
    ap (λ y. y ⊞ c) (times-nil byte_field (tail_value cs byte_field.nil)) ∙ nil-plus byte_field c

-- The secret's polynomial moved to another secret, and unchanged at `xs`.
abbrev moved : Byte → Byte → List Byte → List Byte → Byte → Byte
moved s s' cs xs t =
    value s cs t
    ⊞ product byte_field xs t
      ⊠ (byte_field.inverse (product byte_field xs byte_field.nil) ⊠ (s ⊞ s'))

moved-IsPoly :
    (s s' : Byte) (cs xs : List Byte)
    → length xs ≤ length cs
    → IsPoly byte_field (suc (length cs)) (moved s s' cs xs)
unfolding IsPoly
moved-IsPoly s s' cs xs few =
    let k = byte_field.inverse (product byte_field xs byte_field.nil) ⊠ (s ⊞ s') in
    IsPoly-sum byte_field (suc (length cs)) (value s cs) (λ t. product byte_field xs t ⊠ k)
      (IsPoly-value s cs)
      (subst (λ m. IsPoly byte_field m (λ t. product byte_field xs t ⊠ k))
        {x = length cs - length xs + (length xs + 1)} {y = suc (length cs)} (omega (arith, few))
        (IsPoly-add (length cs - length xs) (length xs + 1) (λ t. product byte_field xs t ⊠ k)
          (product-IsPoly byte_field 1 xs (λ t. k)
            (
              k,
              λ t. byte_field.nil,
              λ t. refl,
              λ t. sym (ap (λ y. k ⊞ y) (times-nil byte_field t) ∙ byte_field.plus-nil k),
            ))))

moved-zero :
    (s s' : Byte) (cs xs : List Byte)
    → IsApart byte_field byte_field.nil xs
    → moved s s' cs xs byte_field.nil ≡ s'
moved-zero s s' cs xs a =
    let m = product byte_field xs byte_field.nil in
    ap₂ byte_field.plus (value-zero s cs) (
      sym (byte_field.times_assoc m (byte_field.inverse m) (s ⊞ s'))
      ∙ ap (λ y. y ⊠ (s ⊞ s'))
          (byte_field.times-inverse m (product_nonzero byte_field xs byte_field.nil a))
      ∙ byte_field.times_comm byte_field.one (s ⊞ s')
      ∙ byte_field.times-one (s ⊞ s'))
    ∙ plus_cancel byte_field s s'

moved_same :
    (s s' : Byte) (cs xs : List Byte) (x : Byte)
    → IsIn byte_field x xs
    → moved s s' cs xs x ≡ value s cs x
moved_same s s' cs xs x m =
    ap
      (λ y.
        value s cs x ⊞ y ⊠ (byte_field.inverse (product byte_field xs byte_field.nil) ⊠ (s ⊞ s')))
      (product-zero byte_field xs x m)
    ∙ ap (λ y. value s cs x ⊞ y) (byte_field.times_comm byte_field.nil _ ∙ times-nil byte_field _)
    ∙ byte_field.plus-nil (value s cs x)

nonzero-IsApart :
    (xs : List Byte) → All (λ x. 0 < x) (raw xs) → IsApart byte_field byte_field.nil xs
nonzero-IsApart [] h = tt
nonzero-IsApart (x ∷ xs) h =
    ((λ e. absurd (omega (arith, h.0, ap (λ (z : Byte). z.0) e))), nonzero-IsApart xs h.1)

pub raw-AreBytes : (bs : List Byte) → AreBytes (raw bs)
raw-AreBytes [] = tt
raw-AreBytes (b ∷ bs) = (b.1, raw-AreBytes bs)

agree :
    (s s' : Byte) (cs cs' xs : List Byte)
    → ((x : Byte) → IsIn byte_field x xs → value s' cs' x ≡ value s cs x)
    → All (λ x. evaluate s'.0 (raw cs') x ≡ evaluate s.0 (raw cs) x) (raw xs)
agree s s' cs cs' [] h = tt
agree s s' cs cs' (x ∷ xs) h = (
  evaluate-raw s' cs' x ∙ ap (λ (z : Byte). z.0) (h x (inl refl)) ∙ sym (evaluate-raw s cs x),
  agree s s' cs cs' xs (λ y m. h y (inr m)),
)

-- Other coefficients for another secret, with the same values at `xs`.
abbrev pub Fitting : ℕ → List ℕ → ℕ → List ℕ → Type 0
Fitting s cs s' xs =
    (cs' : List ℕ) × AreBytes cs'
    × (length cs' ≡ length cs)
    × All (λ x. evaluate s' cs' x ≡ evaluate s cs x) xs

Fitting-raw :
    (s s' : Byte) (cs xs : List Byte)
    → length xs ≤ length cs
    → All (λ x. 0 < x) (raw xs)
    → Fitting s.0 (raw cs) s'.0 (raw xs)
unfolding IsPoly
Fitting-raw s s' cs xs few nonzero =
    let (c, g, p, h) = moved-IsPoly s s' cs xs few in
    let (cs', len, e) = coefficients (length cs) g p in
    let same : (t : Byte) → value c cs' t ≡ moved s s' cs xs t = λ t. sym (
      h t
      ∙ byte_field.plus_comm c (t ⊠ g t)
      ∙ ap (λ y. y ⊞ c) (byte_field.times_comm t (g t) ∙ ap (λ y. y ⊠ t) (e t))) in
    let first : c ≡ s' =
      sym (value-zero c cs')
      ∙ same byte_field.nil
      ∙ moved-zero s s' cs xs (nonzero-IsApart xs nonzero) in
    (
      raw cs',
      raw-AreBytes cs',
      length-raw cs' ∙ len ∙ sym (length-raw cs),
      agree s s' cs cs' xs
          (λ x m. ap (λ z. value z cs' x) (sym first) ∙ same x ∙ moved_same s s' cs xs x m),
    )

-- Values at nonzero byte coordinates, no more of them than there are coefficients besides the
-- secret, fit every other secret byte: some equally many coefficients give it the same values.
pub evaluate-Fitting :
    (s s' : ℕ) (cs xs : List ℕ)
    → s < 256
    → s' < 256
    → AreBytes cs
    → AreBytes xs
    → All (λ x. 0 < x) xs
    → length xs ≤ length cs
    → Fitting s cs s' xs
evaluate-Fitting s s' cs xs hs hs' hc hx nonzero few =
    let (cb, ec) = lift cs hc in
    let (xb, ex) = lift xs hx in
    subst (λ ys. Fitting s ys s' xs) ec
      (subst (λ ys. Fitting s (raw cb) s' ys) ex
        (Fitting-raw (s, hs) (s', hs') cb xb
          (omega (arith, few, length-raw cb, length-raw xb, ap length ec, ap length ex))
          (subst (All (λ x. 0 < x)) (sym ex) nonzero)))
