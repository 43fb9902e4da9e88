-- ===== src/Base/Lists.antt =====
-- Lists measured and indexed by native numbers, under the library's names.
use Prim.Native.Nat.{◌≤◌, ◌-◌, ℕ, zero, suc, ◌+◌, ◌<◌}
use mathlib.Core.Path.{◌≡◌, refl, ap}
use mathlib.Core.List.{List, [], ◌∷◌, ◌++◌, map}
use mathlib.Core.Option.{Option, none, some}
use native.Mathlib.Nat.{add-zero, add-suc, suc-add}
use native.Mathlib.Omega.{arith}

module _ {ℓ} {A : Type ℓ} where
  abbrev pub length : List A → ℕ
  length [] = 0
  length (x ∷ xs) = suc (length xs)

  abbrev pub get_elem? : List A → ℕ → Option A
  get_elem? [] i = none
  get_elem? (x ∷ xs) zero = some x
  get_elem? (x ∷ xs) (suc i) = get_elem? xs i

  -- A write out of bounds changes nothing.
  abbrev pub set : List A → ℕ → A → List A
  set [] i v = []
  set (x ∷ xs) zero v = v ∷ xs
  set (x ∷ xs) (suc i) v = x ∷ set xs i v

  abbrev pub get_last? : List A → Option A
  get_last? [] = none
  get_last? (x ∷ []) = some x
  get_last? (x ∷ y ∷ xs) = get_last? (y ∷ xs)

  abbrev pub take : ℕ → List A → List A
  take zero xs = []
  take (suc n) [] = []
  take (suc n) (x ∷ xs) = x ∷ take n xs

  abbrev pub drop : ℕ → List A → List A
  drop zero xs = xs
  drop (suc n) [] = []
  drop (suc n) (x ∷ xs) = drop n xs

  abbrev pub replicate : ℕ → A → List A
  replicate zero a = []
  replicate (suc n) a = a ∷ replicate n a

  abbrev pub All {κ} : (A → Type κ) → List A → Type κ
  All P [] = Unit
  All P (x ∷ xs) = P x × All P xs

module _ {ℓ} {A : Type ℓ} where
  pub length-append : (xs ys : List A) → length (xs ++ ys) ≡ length xs + length ys
  length-append [] ys = omega arith
  length-append (x ∷ xs) ys = omega (arith, length-append xs ys)

  pub length-set : (xs : List A) (i : ℕ) (v : A) → length (set xs i v) ≡ length xs
  length-set [] i v = refl
  length-set (x ∷ xs) zero v = refl
  length-set (x ∷ xs) (suc i) v = ap suc (length-set xs i v)

  pub length-replicate : (n : ℕ) (a : A) → length (replicate n a) ≡ n
  length-replicate zero a = refl
  length-replicate (suc n) a = ap suc (length-replicate n a)

  pub get_elem?-append_left :
      (xs ys : List A) (i : ℕ) → i < length xs → get_elem? (xs ++ ys) i ≡ get_elem? xs i
  get_elem?-append_left [] ys i h = absurd (omega arith)
  get_elem?-append_left (x ∷ xs) ys zero h = refl
  get_elem?-append_left (x ∷ xs) ys (suc i) h = get_elem?-append_left xs ys i (omega arith)

  pub get_elem?-append_length :
      (xs : List A) (y : A) (ys : List A) → get_elem? (xs ++ y ∷ ys) (length xs) ≡ some y
  get_elem?-append_length [] y ys = refl
  get_elem?-append_length (x ∷ xs) y ys = get_elem?-append_length xs y ys

  pub get_last?-append_one : (xs : List A) (x : A) → get_last? (xs ++ x ∷ []) ≡ some x
  get_last?-append_one [] x = refl
  get_last?-append_one (y ∷ []) x = refl
  get_last?-append_one (y ∷ z ∷ xs) x = get_last?-append_one (z ∷ xs) x

module _ {ℓ κ} {A : Type ℓ} {B : Type κ} where
  pub length-map : (f : A → B) (xs : List A) → length (map f xs) ≡ length xs
  length-map f [] = refl
  length-map f (x ∷ xs) = ap suc (length-map f xs)

module _ {ℓ} {A : Type ℓ} where
  pub get_elem?-some_lt : (xs : List A) (i : ℕ) {x : A} → get_elem? xs i ≡ some x → i < length xs
  get_elem?-some_lt [] i h = cc
  get_elem?-some_lt (y ∷ xs) zero h = omega arith
  get_elem?-some_lt (y ∷ xs) (suc i) h = omega (arith, get_elem?-some_lt xs i h)

module _ {ℓ} {A : Type ℓ} where
  -- The elements from an index on, and the one at it.
  pub drop_of_get_elem? :
      (xs : List A) (i : ℕ) {x : A} → get_elem? xs i ≡ some x → drop i xs ≡ x ∷ drop (i + 1) xs
  drop_of_get_elem? [] i h = cc
  drop_of_get_elem? (y ∷ xs) zero h = cc
  drop_of_get_elem? (y ∷ xs) (suc i) h = rw suc-add (drop_of_get_elem? xs i h)

  pub get_elem?_of_drop :
      (xs : List A) (i : ℕ) {x : A} {ys : List A} → drop i xs ≡ x ∷ ys → get_elem? xs i ≡ some x
  get_elem?_of_drop [] zero h = cc
  get_elem?_of_drop [] (suc i) h = cc
  get_elem?_of_drop (y ∷ xs) zero h = cc
  get_elem?_of_drop (y ∷ xs) (suc i) h = get_elem?_of_drop xs i h

  pub drop-append :
      (xs front ys : List A) (i : ℕ) → drop i xs ≡ front ++ ys → drop (i + length front) xs ≡ ys
  drop-append xs [] ys i h = rw add-zero h
  drop-append xs (a ∷ front) ys i h =
      rw (add-suc, ← suc-add) (drop-append xs front ys (suc i) (drop_suc xs i h))
    where
      drop_suc :
          (zs : List A) (k : ℕ) → drop k zs ≡ a ∷ (front ++ ys) → drop (suc k) zs ≡ front ++ ys
      drop_suc [] zero e = cc
      drop_suc [] (suc k) e = cc
      drop_suc (z ∷ zs) zero e = cc
      drop_suc (z ∷ zs) (suc k) e = drop_suc zs k e

  pub drop-length : (xs : List A) → drop (length xs) xs ≡ []
  drop-length [] = refl
  drop-length (x ∷ xs) = drop-length xs

module _ {ℓ} {A : Type ℓ} where
  pub lt_of_drop : (xs : List A) (i : ℕ) → 0 < length (drop i xs) → i < length xs
  lt_of_drop [] zero h = h
  lt_of_drop [] (suc i) h = absurd (omega arith)
  lt_of_drop (x ∷ xs) zero h = omega arith
  lt_of_drop (x ∷ xs) (suc i) h = omega (arith, lt_of_drop xs i h)

module _ {ℓ} {A : Type ℓ} where
  pub length-take : (n : ℕ) (xs : List A) → n ≤ length xs → length (take n xs) ≡ n
  length-take zero xs h = refl
  length-take (suc n) [] h = absurd (omega arith)
  length-take (suc n) (x ∷ xs) h = ap suc (length-take n xs (omega arith))

  pub length-drop : (n : ℕ) (xs : List A) → length (drop n xs) ≡ length xs - n
  length-drop zero xs = omega arith
  length-drop (suc n) [] = omega arith
  length-drop (suc n) (x ∷ xs) = omega (arith, length-drop n xs)

  pub take-drop : (n : ℕ) (xs : List A) → take n xs ++ drop n xs ≡ xs
  take-drop zero xs = refl
  take-drop (suc n) [] = refl
  take-drop (suc n) (x ∷ xs) = ap (λ ys. x ∷ ys) (take-drop n xs)

  pub take-append_length : (n : ℕ) (xs ys : List A) → length xs ≡ n → take n (xs ++ ys) ≡ xs
  take-append_length zero [] ys h = refl
  take-append_length zero (x ∷ xs) ys h = absurd (omega (arith, h))
  take-append_length (suc n) [] ys h = absurd (omega (arith, h))
  take-append_length (suc n) (x ∷ xs) ys h =
      ap (λ zs. x ∷ zs) (take-append_length n xs ys (omega (arith, h)))

  pub drop-append_length : (n : ℕ) (xs ys : List A) → length xs ≡ n → drop n (xs ++ ys) ≡ ys
  drop-append_length zero [] ys h = refl
  drop-append_length zero (x ∷ xs) ys h = absurd (omega (arith, h))
  drop-append_length (suc n) [] ys h = absurd (omega (arith, h))
  drop-append_length (suc n) (x ∷ xs) ys h = drop-append_length n xs ys (omega (arith, h))
