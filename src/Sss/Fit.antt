-- ===== src/Sss/Fit.antt =====
-- Values at as many coordinates as a threshold are those of one polynomial for each byte.
use leelo.Base.{
  ℕ, zero, suc, ◌≡◌, refl, sym, ◌∙◌, ap, ap₂, subst, List, [], ◌∷◌, map, length, length-map, All,
  ◌+◌, inl, inr, arith, ◌==◌, ==_iff, ==_refl, if◌then◌else◌, Bool-cases,
}
use leelo.Sss.Polynomial.{IsPoly}
use leelo.Sss.Lagrange.{IsIn}
use leelo.Sss.Interpolant.{interpolant, interpolant-IsPoly, interpolant_node}
use leelo.Sss.ByteField.{Byte, byte_field}
use leelo.Sss.Interpolation.{evaluate}
use leelo.Sss.Weights.{◌⊞◌, ◌⊠◌, raw, value, evaluate-raw}
use leelo.Sss.Nodes.{AreBytes, IsDistinct, lift, length-raw, IsDistinct-AreApart, AllApart-nil}
use leelo.Sss.Secrecy.{coefficients, raw-AreBytes}
use leelo.Sss.Recovery.{Poly, IsPolyOf, values_of}

-- The function with the values `ys` at the nodes `xs`.
abbrev at_nodes : List Byte → List Byte → Byte → Byte
at_nodes [] ys t = byte_field.nil
at_nodes (x ∷ xs) [] t = byte_field.nil
at_nodes (x ∷ xs) (y ∷ ys) t = if x.0 == t.0 then y else at_nodes xs ys t

-- The polynomial `(c, cs)` has the values `ys` at `xs`.
abbrev HasValues : Byte → List Byte → List Byte → List Byte → Type 0
HasValues c cs xs ys = map (evaluate c.0 (raw cs)) (raw xs) ≡ raw ys

at_nodes-map :
    (xs ys : List Byte)
    → length ys ≡ length xs
    → IsDistinct (raw xs)
    → map (λ x. (at_nodes xs ys x).0) xs ≡ raw ys
at_nodes-map [] [] l d = refl
at_nodes-map [] (y ∷ ys) l d = absurd (omega (arith, l))
at_nodes-map (x ∷ xs) [] l d = absurd (omega (arith, l))
at_nodes-map (x ∷ xs) (y ∷ ys) l d =
    rw (==_refl x.0)
      (ap (λ zs. y.0 ∷ zs) (later xs d.0 ∙ at_nodes-map xs ys (omega (arith, l)) d.1))
  where
    later :
        (zs : List Byte)
        → All (λ z. ¬ (x.0 ≡ z)) (raw zs)
        → map (λ z. (at_nodes (x ∷ xs) (y ∷ ys) z).0) zs ≡ map (λ z. (at_nodes xs ys z).0) zs
    later [] a = refl
    later (z ∷ zs) a = elim (Bool-cases (x.0 == z.0)) [
      | inl same ↦ absurd (a.0 ((==_iff x.0 z.0).0 same))
      | inr other ↦ rw other (ap (λ ws. (at_nodes xs ys z).0 ∷ ws) (later zs a.1))
    ]

fit_byte :
    (n : ℕ) (xs ys : List Byte)
    → length xs ≡ suc n
    → length ys ≡ length xs
    → IsDistinct (raw xs)
    → (c : Byte) × (cs : List Byte) × (length cs ≡ n) × HasValues c cs xs ys
unfolding IsPoly
fit_byte n xs ys len same_length d =
    let f = interpolant byte_field (at_nodes xs ys) [] xs in
    let (c, g, p, h) =
      subst (λ m. IsPoly byte_field m f) {x = 0 + length xs} {y = suc n} (omega (arith, len))
        (interpolant-IsPoly byte_field (at_nodes xs ys) [] xs) in
    let (cs, count, e) = coefficients n g p in
    let same : (t : Byte) → value c cs t ≡ f t = λ t. sym (
      h t
      ∙ byte_field.plus_comm c (t ⊠ g t)
      ∙ ap (λ y. y ⊞ c) (byte_field.times_comm t (g t) ∙ ap (λ y. y ⊠ t) (e t))) in
    (
      c,
      cs,
      count,
      at_each c cs
            (λ x m.
              same x
              ∙ interpolant_node byte_field (at_nodes xs ys) [] xs
                  (IsDistinct-AreApart [] xs d (AllApart-nil xs)) x m)
            xs (λ x m. m)
          ∙ at_nodes-map xs ys same_length d,
    )
  where
    at_each :
        (c : Byte) (cs : List Byte)
        → ((x : Byte) → IsIn byte_field x xs → value c cs x ≡ at_nodes xs ys x)
        → (zs : List Byte) → ((x : Byte) → IsIn byte_field x zs → IsIn byte_field x xs)
        → map (evaluate c.0 (raw cs)) (raw zs) ≡ map (λ x. (at_nodes xs ys x).0) zs
    at_each c cs node [] inside = refl
    at_each c cs node (z ∷ zs) inside =
        ap₂ (λ w ws. w ∷ ws)
          (evaluate-raw c cs z ∙ ap (λ (b : Byte). b.0) (node z (inside z (inl refl))))
          (at_each c cs node zs (λ x m. inside x (inr m)))

-- Any bytes at distinct byte coordinates are the values of a polynomial with as many coefficients.
pub fit_poly :
    (n : ℕ) (xs ys : List ℕ)
    → AreBytes xs
    → AreBytes ys
    → length xs ≡ suc n
    → length ys ≡ length xs
    → IsDistinct xs
    → (p : Poly) × IsPolyOf (suc n) p × (map (evaluate p.0 p.1) xs ≡ ys)
fit_poly n xs ys hx hy len same d =
    let (xb, ex) = lift xs hx in
    let (yb, ey) = lift ys hy in
    let (c, cs, count, values) =
      fit_byte n xb yb (omega (arith, length-raw xb, ap length ex, len))
        (omega (arith, length-raw xb, length-raw yb, ap length ex, ap length ey, same))
        (subst IsDistinct (sym ex) d) in
    (
      (c.0, raw cs),
      (c.1, raw-AreBytes cs, omega (arith, length-raw cs, count)),
      subst (λ zs. map (evaluate c.0 (raw cs)) zs ≡ ys) ex (values ∙ ey),
    )

-- The polynomials' values at each coordinate are the list that stands for it.
abbrev pub Agree : List Poly → List ℕ → List (List ℕ) → Type 0
Agree polys [] [] = Unit
Agree polys (x ∷ xs) (v ∷ vs) = (v ≡ values_of polys x) × Agree polys xs vs
Agree polys xs vs = ⊥

abbrev AreRows : ℕ → List (List ℕ) → Type 0
AreRows k vs = All (λ v. (length v ≡ k) × AreBytes v) vs

abbrev head_of : List ℕ → ℕ
head_of [] = 0
head_of (x ∷ xs) = x

abbrev tail_of : List ℕ → List ℕ
tail_of [] = []
tail_of (x ∷ xs) = xs

heads-AreBytes : (k : ℕ) (vs : List (List ℕ)) → AreRows (suc k) vs → AreBytes (map head_of vs)
heads-AreBytes k [] r = tt
heads-AreBytes k ([] ∷ vs) r = absurd (omega (arith, r.0.0))
heads-AreBytes k ((b ∷ v) ∷ vs) r = (r.0.1.0, heads-AreBytes k vs r.1)

tails-AreRows : (k : ℕ) (vs : List (List ℕ)) → AreRows (suc k) vs → AreRows k (map tail_of vs)
tails-AreRows k [] r = tt
tails-AreRows k ([] ∷ vs) r = absurd (omega (arith, r.0.0))
tails-AreRows k ((b ∷ v) ∷ vs) r = ((omega (arith, r.0.0), r.0.1.1), tails-AreRows k vs r.1)

Agree-nil :
    (xs : List ℕ) (vs : List (List ℕ)) → length vs ≡ length xs → AreRows 0 vs → Agree [] xs vs
Agree-nil [] [] l r = tt
Agree-nil [] (v ∷ vs) l r = absurd (omega (arith, l))
Agree-nil (x ∷ xs) [] l r = absurd (omega (arith, l))
Agree-nil (x ∷ xs) ([] ∷ vs) l r = (refl, Agree-nil xs vs (omega (arith, l)) r.1)
Agree-nil (x ∷ xs) ((b ∷ v) ∷ vs) l r = absurd (omega (arith, r.0.0))

Agree-cons :
    (k : ℕ) (p : Poly) (polys : List Poly) (xs : List ℕ) (vs : List (List ℕ))
    → AreRows (suc k) vs
    → map (evaluate p.0 p.1) xs ≡ map head_of vs
    → Agree polys xs (map tail_of vs)
    → Agree (p ∷ polys) xs vs
Agree-cons k p polys [] [] r h a = tt
Agree-cons k p polys [] (v ∷ vs) r h a = a
Agree-cons k p polys (x ∷ xs) [] r h a = a
Agree-cons k p polys (x ∷ xs) ([] ∷ vs) r h a = absurd (omega (arith, r.0.0))
Agree-cons k p polys (x ∷ xs) ((b ∷ v) ∷ vs) r h a = (
  ap₂ (λ y ys. y ∷ ys) (sym (ap head_of h)) a.0,
  Agree-cons k p polys xs vs r.1 (ap tail_of h) a.1,
)

-- Rows of bytes at distinct byte coordinates are the values of one polynomial for each column.
pub fit_polys :
    (k n : ℕ) (xs : List ℕ) (vs : List (List ℕ))
    → AreBytes xs
    → IsDistinct xs
    → length xs ≡ suc n
    → length vs ≡ length xs
    → AreRows k vs
    → (polys : List Poly) × (length polys ≡ k) × All (IsPolyOf (suc n)) polys × Agree polys xs vs
fit_polys zero n xs vs hx d len same r = ([], refl, tt, Agree-nil xs vs same r)
fit_polys (suc k) n xs vs hx d len same r =
    let (p, good, values) =
      fit_poly n xs (map head_of vs) hx (heads-AreBytes k vs r) len (length-map head_of vs ∙ same)
        d in
    let (polys, count, goods, rest) =
      fit_polys k n xs (map tail_of vs) hx d len (length-map tail_of vs ∙ same)
        (tails-AreRows k vs r) in
    (p ∷ polys, ap suc count, (good, goods), Agree-cons k p polys xs vs r values rest)
