-- ===== src/Telemetry/Emitter/Buffer.antt =====
-- The fixed buffer of crates/leelo-telemetry/src/lib.rs: what is in it after writing.
use leelo.Base.{
  ℕ, ◌+◌, ◌-◌, ◌≤◌, ◌<◌, ◌≡◌, ◌↔◌, refl, sym, ◌∙◌, ap, subst, List, [], ◌∷◌, ◌++◌, append_assoc,
  append-nil, none, some, some_injective, length, length-append, length-take, length-drop,
  length-replicate, take, drop, take-append_length, ltb, le→ltb_false, Bool-cases, false, inl, inr,
  arith,
}
use leelo.Telemetry.Emitter.{FixedBuffer, empty_buffer, write, write_pieces}

abbrev pub concat : List (List ℕ) → List ℕ
concat [] = []
concat (p ∷ ps) = p ++ concat ps

-- The buffer keeps its size, and its length is within it.
abbrev IsBuffer : FixedBuffer → Type 0
IsBuffer b = (length b.bytes ≡ 4096) × (b.len ≤ 4096)

abbrev pub written : FixedBuffer → List ℕ
written b = take b.len b.bytes

length-written : (b : FixedBuffer) → IsBuffer b → length (written b) ≡ b.len
length-written b w = length-take b.len b.bytes (omega (arith, w.0, w.1))

-- Writing within the size appends.
write_appends :
    (b : FixedBuffer) (new : List ℕ)
    → IsBuffer b
    → b.len + length new ≤ 4096
    → (b' : FixedBuffer) × (write b new ≡ some b')
      × IsBuffer b'
      × (written b' ≡ written b ++ new)
      × (b'.len ≡ b.len + length new)
unfolding write
write_appends b new w fits =
    let tail = drop (b.len + length new) b.bytes in
    let size = length-written b w in
    let all = length-append (written b ++ new) tail in
    let rest = length-drop (b.len + length new) b.bytes in
    let total = length-append (written b) new in
    (
      record { bytes = written b ++ new ++ tail; len = b.len + length new },
      rw (le→ltb_false (length b.bytes - b.len) (length new) (omega (arith, w.0, fits))) refl,
      (omega (arith, size, all, total, rest, w.0, fits), fits),
      take-append_length (b.len + length new) (written b ++ new) tail (omega (arith, total, size)),
      refl,
    )

-- Writing beyond the size fails.
write_fails :
    (b : FixedBuffer) (new : List ℕ) → IsBuffer b → 4096 < b.len + length new → write b new ≡ none
unfolding write
write_fails b new w over = ground (arith, w.0, w.1, over)

write_pieces-appends :
    (b : FixedBuffer) (ps : List (List ℕ))
    → IsBuffer b
    → b.len + length (concat ps) ≤ 4096
    → (b' : FixedBuffer) × (write_pieces b ps ≡ some b')
      × (written b' ≡ written b ++ concat ps)
      × (b'.len ≡ b.len + length (concat ps))
unfolding write_pieces
write_pieces-appends b [] w fits = (b, refl, sym (append-nil (written b)), omega arith)
write_pieces-appends b (p ∷ ps) w fits =
    let size = length-append p (concat ps) in
    let (b₁, first, w₁, here, len₁) = write_appends b p w (omega (arith, size)) in
    let (b₂, rest, there, len₂) = write_pieces-appends b₁ ps w₁ (omega (arith, size, len₁)) in
    (
      b₂,
      rw first rest,
      there ∙ (ap (λ xs. xs ++ concat ps) here ∙ append_assoc (written b) p (concat ps)),
      omega (arith, len₁, len₂, size),
    )

write_pieces_fails :
    (b : FixedBuffer) (ps : List (List ℕ))
    → IsBuffer b
    → 4096 < b.len + length (concat ps)
    → write_pieces b ps ≡ none
unfolding write_pieces
write_pieces_fails b [] w over = absurd (omega (arith, w.1))
write_pieces_fails b (p ∷ ps) w over = elim (Bool-cases (ltb 4096 (b.len + length p))) [
  | inl now ↦ rw (write_fails b p w (ground (arith, now))) refl
  | inr later ↦
      let (b₁, first, w₁, here, len₁) = write_appends b p w (ground (arith, later)) in
      rw first (write_pieces_fails b₁ ps w₁ (omega (arith, len₁, length-append p (concat ps))))
]

empty-IsBuffer : IsBuffer empty_buffer
empty-IsBuffer = (length-replicate {A = ℕ} 4096 0, omega arith)

pub fill_empty :
    (ps : List (List ℕ))
    → length (concat ps) ≤ 4096
    → (b : FixedBuffer) × (write_pieces empty_buffer ps ≡ some b)
      × (written b ≡ concat ps)
      × (b.len ≡ length (concat ps))
fill_empty ps fits =
    let (b, done, holds, size) =
      write_pieces-appends empty_buffer ps empty-IsBuffer (omega arith) in
    (b, done, holds, omega (arith, size))

pub empty_fails :
    (ps : List (List ℕ)) → 4096 < length (concat ps) → write_pieces empty_buffer ps ≡ none
empty_fails ps over = write_pieces_fails empty_buffer ps empty-IsBuffer (omega arith)

-- What pieces that were written have in the buffer, and how many bytes.
pub filled_empty :
    (ps : List (List ℕ)) (b : FixedBuffer)
    → write_pieces empty_buffer ps ≡ some b
    → (written b ≡ concat ps) × (b.len ≡ length (concat ps)) × (length (concat ps) ≤ 4096)
filled_empty ps b done = elim (Bool-cases (ltb 4096 (length (concat ps)))) [
  | inl over ↦ absurd (none_not_some (sym (empty_fails ps (ground (arith, over))) ∙ done))
  | inr fits ↦
      let small = not_over fits in
      let (b', done', holds', size') = fill_empty ps small in
      let same = some_injective (sym done' ∙ done) in
      subst
        (λ (x : FixedBuffer).
          (written x ≡ concat ps) × (x.len ≡ length (concat ps)) × (length (concat ps) ≤ 4096))
        same (holds', size', small)
]
  where
    none_not_some : {b : FixedBuffer} → ¬ (none ≡ some b)
    none_not_some h = cc

    not_over : {n : ℕ} → ltb 4096 n ≡ false → n ≤ 4096
    not_over h = ground arith

-- Pieces are written to an empty buffer exactly when they have no more than 4096 bytes together, and
-- then the buffer holds them one after the other.
pub write_pieces_iff :
    (ps : List (List ℕ)) (bytes : List ℕ)
    → ((b : FixedBuffer) × (write_pieces empty_buffer ps ≡ some b) × (written b ≡ bytes))
      ↔ ((concat ps ≡ bytes) × (length bytes ≤ 4096))
write_pieces_iff ps bytes = (
  λ (b, done, holds).
      let (is_all, _, small) = filled_empty ps b done in
      let equal = sym is_all ∙ holds in (equal, subst (λ xs. length xs ≤ 4096) equal small),
  λ (same, fits).
      let (b, done, holds, _) = fill_empty ps (subst (λ xs. length xs ≤ 4096) (sym same) fits) in
      (b, done, holds ∙ same),
)
