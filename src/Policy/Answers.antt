-- ===== src/Policy/Answers.antt =====
-- The response vector of crates/leelo-policy/src/lib.rs after a run of responses, leaf by leaf.
use leelo.Base.{
  ℕ, suc, ◌≡◌, refl, sym, ap₂, subst, Bool, true, false, List, [], ◌∷◌, none, some, arith, ◌==◌,
  if◌then◌else◌, get_elem?, set, ok, err, some_injective, Option-cases, Bool-cases, inl, inr, ◌⊎◌,
}
use leelo.Policy.Verified.{record_response}
use leelo.Policy.Check.{Leaf}
use leelo.Policy.Compile.{has_id, unknown_network_leaf, duplicate_response}
use leelo.Policy.Admissible.{DistinctIds}
use leelo.Policy.Responses.{position, respond}
use leelo.Policy.Satisfied.{answered, leaf_ids}

-- An answer that no leaf waits for changes no response.
answered-absent :
    (i : ℕ) (seen : List ℕ) (leaves : List Leaf)
    → has_id i (leaf_ids leaves) ≡ false
    → answered (i ∷ seen) leaves ≡ answered seen leaves
answered-absent i seen [] h = refl
answered-absent i seen ((j, p) ∷ leaves) h =
    let here : has_id j (i ∷ seen) ≡ has_id j seen = ground arith in
    ap₂ ◌∷◌ here (answered-absent i seen leaves (ground arith))

pub position-none :
    (i : ℕ) (leaves : List Leaf) → position i leaves ≡ none → has_id i (leaf_ids leaves) ≡ false
unfolding position
position-none i [] h = refl
position-none i ((j, p) ∷ leaves) h = ground (arith, position-none i leaves)

position-cases :
    (i j k : ℕ) (p : List ℕ) (leaves : List Leaf)
    → position i ((j, p) ∷ leaves) ≡ some k
    → ((j ≡ i) × (k ≡ 0))
      ⊎ (((j == i) ≡ false) × (m : ℕ) × (position i leaves ≡ some m) × (k ≡ suc m))
unfolding position
position-cases i j k p leaves h = elim (Bool-cases (j == i)) [
  | inl same ↦ inl (ground arith, ground arith)
  | inr other ↦ elim (Option-cases (position i leaves)) [
    | inl missing ↦ cc (rw (other, missing) at h)
    | inr (m, found) ↦ inr (other, m, found, sym (some_injective (rw (other, found) at h)))
  ]
]

-- Position `k` is that of the leaf `i`: its answer stands there, and setting it is answering `i`.
abbrev pub IsAnswerAt : ℕ → ℕ → List ℕ → List Leaf → Type 0
IsAnswerAt i k seen leaves =
    (get_elem? (answered seen leaves) k ≡ some (has_id i seen))
    × (set (answered seen leaves) k true ≡ answered (i ∷ seen) leaves)
    × (has_id i (leaf_ids leaves) ≡ true)

IsAnswerAt-head :
    (i : ℕ) (p seen : List ℕ) (leaves : List Leaf)
    → has_id i (leaf_ids leaves) ≡ false
    → IsAnswerAt i 0 seen ((i, p) ∷ leaves)
IsAnswerAt-head i p seen leaves absent =
    (refl, rw (answered-absent i seen leaves absent) (ground arith), ground arith)

IsAnswerAt-tail :
    (i j k : ℕ) (p seen : List ℕ) (leaves : List Leaf)
    → (j == i) ≡ false
    → IsAnswerAt i k seen leaves
    → IsAnswerAt i (suc k) seen ((j, p) ∷ leaves)
IsAnswerAt-tail i j k p seen leaves other (here, there, known) =
    let head : has_id j seen ≡ has_id j (i ∷ seen) = ground arith in
    (here, ap₂ ◌∷◌ head there, ground arith)

pub position-IsAnswerAt :
    (i k : ℕ) (seen : List ℕ) (leaves : List Leaf)
    → DistinctIds (leaf_ids leaves)
    → position i leaves ≡ some k
    → IsAnswerAt i k seen leaves
position-IsAnswerAt i k seen [] d h = unfold position in cc h
position-IsAnswerAt i k seen ((j, p) ∷ leaves) d h = elim (position-cases i j k p leaves h) [
  | inl (same, first) ↦ rw first (
      subst (λ x. IsAnswerAt i 0 seen ((x, p) ∷ leaves)) (sym same)
        (IsAnswerAt-head i p seen leaves
          (subst (λ x. has_id x (leaf_ids leaves) ≡ false) same d.0)))
  | inr (other, m, found, later) ↦
      rw later
        (IsAnswerAt-tail i j m p seen leaves other (position-IsAnswerAt i m seen leaves d.1 found))
]

respond-missing :
    (i : ℕ) (leaves : List Leaf) (rs : List Bool)
    → position i leaves ≡ none
    → respond leaves i rs ≡ err (unknown_network_leaf i)
unfolding respond
respond-missing i leaves rs h = rw (h, respond)

respond-found :
    (i k : ℕ) (leaves : List Leaf) (rs : List Bool) (b : Bool)
    → position i leaves ≡ some k
    → get_elem? rs k ≡ some b
    → respond leaves i rs ≡ (if b then err (duplicate_response i) else ok (set rs k true))
unfolding respond
respond-found i k leaves rs true h g = rw (h, respond) (rw (g, record_response))
respond-found i k leaves rs false h g = rw (h, respond) (rw (g, record_response))

-- In a plan whose leaves have distinct identifiers, a response of an unknown leaf is an error, a
-- second response of a leaf is another, and any other response marks exactly its own leaf.
pub respond-answered :
    (i : ℕ) (seen : List ℕ) (leaves : List Leaf)
    → DistinctIds (leaf_ids leaves)
    → respond leaves i (answered seen leaves) ≡ (
        if has_id i (leaf_ids leaves)
        then (if has_id i seen then err (duplicate_response i) else ok (answered (i ∷ seen) leaves))
        else err (unknown_network_leaf i))
respond-answered i seen leaves d = elim (Option-cases (position i leaves)) [
  | inl missing ↦ rw (position-none i leaves missing) (respond-missing i leaves _ missing)
  | inr (k, found) ↦
      let (here, there, known) = position-IsAnswerAt i k seen leaves d found in
      rw (known, ← there) (respond-found i k leaves _ (has_id i seen) found here)
]
