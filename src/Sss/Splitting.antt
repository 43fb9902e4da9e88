-- ===== src/Sss/Splitting.antt =====
-- `split` of crates/leelo-sss/src/lib.rs: what its shares are, and the way back.
use leelo.Base.{
  ℕ, suc, ◌≡◌, refl, sym, ◌∙◌, ap, subst, List, [], ◌∷◌, ◌++◌, map, length, arith, All, set,
  replicate, Option, none, some, ok, >>=-eq-ok, ok_injective, append_assoc, append-nil,
  length-append,
}
use leelo.Sss.Share.{Share}
use leelo.Sss.Nodes.{AreBytes}
use leelo.Sss.Interpolation.{evaluate}
use leelo.Sss.Sharing.{put_byte, filled, split_bytes}
use leelo.Sss.Recovery.{Poly, IsPolyOf, values_of, secret_of, indices}

-- The values so far, then zeros.
abbrev pub IsFilled : List Poly → ℕ → Share → Type 0
IsFilled done n s = s.value ≡ values_of done s.index ++ replicate n 0

set_next :
    (x v n : ℕ) (done : List Poly)
    → set (values_of done x ++ replicate (suc n) 0) (length done) v
      ≡ values_of done x ++ v ∷ replicate n 0
set_next x v n [] = refl
set_next x v n (d ∷ done) = ap (λ ys. evaluate d.0 d.1 x ∷ ys) (set_next x v n done)

values_of-append :
    (done : List Poly) (p : Poly) (x : ℕ) (ys : List ℕ)
    → values_of done x ++ evaluate p.0 p.1 x ∷ ys ≡ values_of (done ++ p ∷ []) x ++ ys
values_of-append [] p x ys = refl
values_of-append (d ∷ done) p x ys =
    ap (λ zs. evaluate d.0 d.1 x ∷ zs) (values_of-append done p x ys)

put-All :
    (done : List Poly) (n : ℕ) (p : Poly) (shares : List Share)
    → All (IsFilled done (suc n)) shares
    → All (IsFilled (done ++ p ∷ []) n) (map (put_byte (length done) p.0 p.1) shares)
unfolding put_byte
put-All done n p [] h = tt
put-All done n p (s ∷ shares) h = (
  ap (λ v. set v (length done) (evaluate p.0 p.1 s.index)) h.0
      ∙ set_next s.index (evaluate p.0 p.1 s.index) n done
      ∙ values_of-append done p s.index (replicate n 0),
  put-All done n p shares h.1,
)

indices-put :
    (byte b : ℕ) (cs : List ℕ) (shares : List Share)
    → indices (map (put_byte byte b cs) shares) ≡ indices shares
unfolding put_byte
indices-put byte b cs [] = refl
indices-put byte b cs (s ∷ shares) = ap (λ xs. s.index ∷ xs) (indices-put byte b cs shares)

-- What the loop over the secret's bytes leaves: one polynomial for each byte.
pub record Split (degree : ℕ) (secret : List ℕ) (done : List Poly) (before after : List Share)
    : Type 0 where
  pub polys : List Poly
  pub same_secret : secret_of polys ≡ secret
  pub good : All (IsPolyOf (suc degree)) polys
  pub same_indices : indices after ≡ indices before
  pub values : All (λ s. s.value ≡ values_of (done ++ polys) s.index) after

filled-some : {A : Type 0} (o : Option A) (a : A) → filled o ≡ ok a → o ≡ some a
filled-some none a h = cc
filled-some (some b) a h = ap some (ok_injective h)

no_zeros :
    (done : List Poly) (shares : List Share)
    → All (IsFilled done 0) shares
    → All (λ s. s.value ≡ values_of (done ++ []) s.index) shares
no_zeros done [] h = tt
no_zeros done (s ∷ shares) h = (
  h.0 ∙ append-nil _ ∙ ap (λ ps. values_of ps s.index) (sym (append-nil done)),
  no_zeros done shares h.1,
)

-- `try_fill_bytes` fills what it is given: when it succeeds there are as many bytes as were asked for.
abbrev pub Fills : {R : Type 0} → (R → ℕ → Option (List ℕ × R)) → Type 0
Fills {R} fill =
    (r : R) (n : ℕ) (bs : List ℕ) (r' : R)
    → fill r n ≡ some (bs, r')
    → (length bs ≡ n) × AreBytes bs

module _ {R : Type 0} (fill : R → ℕ → Option (List ℕ × R)) (fills : Fills fill) where
  pub split_bytes-Split :
      (degree : ℕ) (secret : List ℕ) (done : List Poly) (rng : R) (shares : List Share)
      (out : List Share × R)
      → AreBytes secret
      → All (IsFilled done (length secret)) shares
      → split_bytes fill degree secret (length done) rng shares ≡ ok out
      → Split degree secret done shares out.0
  unfolding split_bytes
  split_bytes-Split degree [] done rng shares out hb h e = record {
    polys = [];
    same_secret = refl;
    good = tt;
    same_indices = ap (λ (o : List Share × R). indices o.0) (sym (ok_injective e));
    values =
        subst (λ (o : List Share × R). All (λ s. s.value ≡ values_of (done ++ []) s.index) o.0)
          (ok_injective e) (no_zeros done shares h);
  }
  split_bytes-Split degree (b ∷ secret) done rng shares out hb h e =
      let ((cs, rng'), e₁, e₂) = >>=-eq-ok (filled (fill rng degree)) _ e in
      let (len, bytes) = fills rng degree cs rng' (filled-some (fill rng degree) (cs, rng') e₁) in
      let rest =
        split_bytes-Split degree secret (done ++ (b, cs) ∷ []) rng'
          (map (put_byte (length done) b cs) shares) out hb.1
          (put-All done (length secret) (b, cs) shares h)
          (ap
              (λ k.
                split_bytes fill degree secret k rng' (map (put_byte (length done) b cs) shares))
              (length-append done ((b, cs) ∷ []) ∙ omega arith)
            ∙ e₂) in
      record {
        polys = (b, cs) ∷ rest.polys;
        same_secret = ap (λ xs. b ∷ xs) rest.same_secret;
        good = ((hb.0, bytes, ap suc len), rest.good);
        same_indices = rest.same_indices ∙ indices-put (length done) b cs shares;
        values =
            subst (λ ps. All (λ s. s.value ≡ values_of ps s.index) out.0)
              (append_assoc done ((b, cs) ∷ []) rest.polys) rest.values;
      }
