-- ===== src/Sss/Nodes.antt =====
-- Interpolation of crates/leelo-sss/src/interpolation.rs on plain bytes: the weighted sum of a
-- polynomial's values at enough distinct coordinates is its value anywhere.
use leelo.Base.{
  ℕ, zero, suc, ◌+◌, ◌-◌, ◌<◌, ◌≡◌, refl, sym, ◌∙◌, ap, ap₂, subst, List, [], ◌∷◌, map, length,
  arith, All,
}
use leelo.Sss.Polynomial.{IsPoly, IsPoly-more}
use leelo.Sss.Lagrange.{IsApart, AreApart}
use leelo.Sss.Interpolant.{interpolant_lem}
use leelo.Sss.ByteField.{Byte, byte_field}
use leelo.Sss.Interpolation.{evaluate, weights, weighted_sum}
use leelo.Sss.Weights.{raw, value, values_at, evaluate-raw, IsPoly-value, weighted_sum-interpolant}

abbrev pub AreBytes : List ℕ → Type 0
AreBytes xs = All (λ x. x < 256) xs

-- No coordinate occurs twice.
abbrev pub IsDistinct : List ℕ → Type 0
IsDistinct [] = Unit
IsDistinct (x ∷ xs) = All (λ y. ¬ (x ≡ y)) xs × IsDistinct xs

pub lift : (xs : List ℕ) → AreBytes xs → (bs : List Byte) × (raw bs ≡ xs)
lift [] h = ([], refl)
lift (x ∷ xs) h = let (bs, e) = lift xs h.1 in ((x, h.0) ∷ bs, ap (λ ys. x ∷ ys) e)

pub length-raw : (bs : List Byte) → length (raw bs) ≡ length bs
length-raw [] = refl
length-raw (b ∷ bs) = ap suc (length-raw bs)

-- Every node of `bs` is apart from every one of `before`.
abbrev AllApart : List Byte → List Byte → Type 0
AllApart before bs = All (λ b. IsApart byte_field b before) bs

AllApart-cons :
    (b : Byte) (before bs : List Byte)
    → All (λ y. ¬ (b.0 ≡ y)) (raw bs)
    → AllApart before bs
    → AllApart (b ∷ before) bs
AllApart-cons b before [] d h = tt
AllApart-cons b before (c ∷ cs) d h =
    (((λ e. d.0 (ap (λ (z : Byte). z.0) (sym e))), h.0), AllApart-cons b before cs d.1 h.1)

pub IsDistinct-AreApart :
    (before bs : List Byte)
    → IsDistinct (raw bs)
    → AllApart before bs
    → AreApart byte_field before bs
unfolding AreApart
IsDistinct-AreApart before [] d h = tt
IsDistinct-AreApart before (b ∷ bs) d h =
    (h.0, IsDistinct-AreApart (b ∷ before) bs d.1 (AllApart-cons b before bs d.0 h.1))

pub AllApart-nil : (bs : List Byte) → AllApart [] bs
AllApart-nil [] = tt
AllApart-nil (b ∷ bs) = (tt, AllApart-nil bs)

-- A bound on the coefficients may be raised.
pub IsPoly-add : (k n : ℕ) (f : Byte → Byte) → IsPoly byte_field n f → IsPoly byte_field (k + n) f
IsPoly-add zero n f p = subst (λ m. IsPoly byte_field m f) {y = 0 + n} (omega arith) p
IsPoly-add (suc k) n f p =
    subst (λ m. IsPoly byte_field m f) {x = suc (k + n)} {y = suc k + n} (omega arith)
      (IsPoly-more byte_field (k + n) f (IsPoly-add k n f p))

map-evaluate :
    (s : Byte) (cs bs : List Byte)
    → map (evaluate s.0 (raw cs)) (raw bs) ≡ values_at (value s cs) bs
map-evaluate s cs [] = refl
map-evaluate s cs (b ∷ bs) = ap₂ (λ x xs. x ∷ xs) (evaluate-raw s cs b) (map-evaluate s cs bs)

raw_lem :
    (s : Byte) (cs bs : List Byte) (t : Byte)
    → length cs < length bs
    → IsDistinct (raw bs)
    → weighted_sum (map (evaluate s.0 (raw cs)) (raw bs)) (weights (raw bs) t.0)
      ≡ evaluate s.0 (raw cs) t.0
raw_lem s cs bs t enough d =
    ap (λ vs. weighted_sum vs (weights (raw bs) t.0)) (map-evaluate s cs bs)
    ∙ weighted_sum-interpolant (value s cs) t bs
    ∙ ap (λ (b : Byte). b.0)
        (interpolant_lem byte_field (value s cs) bs
          (subst (λ m. IsPoly byte_field m (value s cs))
            {x = length bs - suc (length cs) + suc (length cs)} {y = length bs}
            (omega (arith, enough))
            (IsPoly-add (length bs - suc (length cs)) (suc (length cs)) (value s cs)
              (IsPoly-value s cs)))
          (IsDistinct-AreApart [] bs d (AllApart-nil bs)) t)
    ∙ sym (evaluate-raw s cs t)

-- For bytes `s` and `cs`, distinct byte coordinates `xs` of which there are more than `cs`, and a
-- byte `t`: the weighted sum of the polynomial's values at `xs`, with the Lagrange weights for
-- `t`, is the polynomial's value at `t`.
pub weighted_sum-weights :
    (s : ℕ) (cs xs : List ℕ) (t : ℕ)
    → s < 256
    → AreBytes cs
    → AreBytes xs
    → t < 256
    → length cs < length xs
    → IsDistinct xs
    → weighted_sum (map (evaluate s cs) xs) (weights xs t) ≡ evaluate s cs t
weighted_sum-weights s cs xs t hs hc hx ht enough d =
    let (cb, ec) = lift cs hc in
    let (xb, ex) = lift xs hx in
    subst (λ ys. weighted_sum (map (evaluate s ys) xs) (weights xs t) ≡ evaluate s ys t) ec
      (subst
        (λ ys. weighted_sum (map (evaluate s (raw cb)) ys) (weights ys t) ≡ evaluate s (raw cb) t)
        ex
        (raw_lem (s, hs) cb xb (t, ht)
          (omega (arith, enough, length-raw cb, length-raw xb, ap length ec, ap length ex))
          (subst IsDistinct (sym ex) d)))
