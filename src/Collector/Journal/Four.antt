-- ===== src/Collector/Journal/Four.antt =====
-- Four lines of a journal joined, and split again, in crates/leelo-collector/src/reconcile.rs.
use leelo.Base.{
  ℕ, suc, ◌+◌, ◌-◌, ◌≤◌, ◌<◌, ◌≡◌, refl, sym, ◌∙◌, ap, subst, List, [], ◌∷◌, ◌++◌, Bool, true,
  false, not, ◌||◌, ltb, ◌==◌, ==_iff, length, length-append, take-append_length,
  get_last?-append_one, append_assoc, take, All, arith,
}
use leelo.Collector.Types.{journal_limit}
use leelo.Collector.Journal.{split_lines, ends_with_break}
use leelo.Collector.Journal.Lines.{IsLine, join_lines, split_lines-line, split_lines-append}

ends_with_break-append : (front : List ℕ) → ends_with_break (front ++ 10 ∷ []) ≡ true
ends_with_break-append front = rw (ends_with_break, get_last?-append_one front 10) refl

front_of : (front : List ℕ) → take (length (front ++ 10 ∷ []) - 1) (front ++ 10 ∷ []) ≡ front
front_of front =
    take-append_length (length (front ++ 10 ∷ []) - 1) front (10 ∷ [])
      (omega (arith, length-append front (10 ∷ [])))

-- Bytes that end with a line break are their front and the line break.
pub front_break :
    (bytes : List ℕ)
    → ends_with_break bytes ≡ true
    → take (length bytes - 1) bytes ++ 10 ∷ [] ≡ bytes
front_break [] h = cc
front_break (b ∷ []) h = ap (λ x. x ∷ []) (sym ((==_iff b 10).0 h))
front_break (b ∷ c ∷ bytes) h =
    subst (λ k. take k (b ∷ c ∷ bytes) ++ 10 ∷ [] ≡ b ∷ c ∷ bytes)
      {x = suc (suc (length bytes) - 1)} {y = suc (suc (length bytes)) - 1} (omega arith)
      (ap (λ x. b ∷ x) (front_break (c ∷ bytes) h))

join_four :
    (l₀ l₁ l₂ l₃ : List ℕ)
    → join_lines (l₀ ∷ l₁ ∷ l₂ ∷ l₃ ∷ []) ≡ (l₀ ++ 10 ∷ (l₁ ++ 10 ∷ (l₂ ++ 10 ∷ l₃))) ++ 10 ∷ []
join_four l₀ l₁ l₂ l₃ = simp append_assoc

split_four :
    (l₀ l₁ l₂ l₃ : List ℕ)
    → All IsLine (l₀ ∷ l₁ ∷ l₂ ∷ l₃ ∷ [])
    → split_lines (l₀ ++ 10 ∷ (l₁ ++ 10 ∷ (l₂ ++ 10 ∷ l₃))) ≡ l₀ ∷ l₁ ∷ l₂ ∷ l₃ ∷ []
split_four l₀ l₁ l₂ l₃ (a₀, (a₁, (a₂, (a₃, _)))) =
    rw
      (
        split_lines-append l₀ _ a₀,
        split_lines-append l₁ _ a₁,
        split_lines-append l₂ _ a₂,
        split_lines-line l₃ a₃,
      )
      refl

length-four :
    (l₀ l₁ l₂ l₃ : List ℕ)
    → length (join_lines (l₀ ∷ l₁ ∷ l₂ ∷ l₃ ∷ []))
      ≡ length l₀ + length l₁ + length l₂ + length l₃ + 4
length-four l₀ l₁ l₂ l₃ = omega (
  arith,
  length-append l₀ (10 ∷ join_lines (l₁ ∷ l₂ ∷ l₃ ∷ [])),
  length-append l₁ (10 ∷ join_lines (l₂ ∷ l₃ ∷ [])),
  length-append l₂ (10 ∷ join_lines (l₃ ∷ [])),
  length-append l₃ (10 ∷ []),
)

abbrev pub is_refused : List ℕ → Bool
is_refused bytes =
    length bytes == 0 || not (ends_with_break bytes) || ltb journal_limit (length bytes)

pub not_refused : (bytes : List ℕ) → is_refused bytes ≡ false → ends_with_break bytes ≡ true
not_refused bytes h = ground arith

pub four_accepted :
    (bytes l₀ l₁ l₂ l₃ : List ℕ)
    → bytes ≡ join_lines (l₀ ∷ l₁ ∷ l₂ ∷ l₃ ∷ [])
    → All (λ l. length l ≤ 8192) (l₀ ∷ l₁ ∷ l₂ ∷ l₃ ∷ [])
    → is_refused bytes ≡ false
four_accepted bytes l₀ l₁ l₂ l₃ e (s₀, (s₁, (s₂, (s₃, _)))) =
    let size = ap length e ∙ length-four l₀ l₁ l₂ l₃ in
    accepted bytes (omega arith) (omega arith) (
      rw (e, join_four l₀ l₁ l₂ l₃)
        (ends_with_break-append (l₀ ++ 10 ∷ (l₁ ++ 10 ∷ (l₂ ++ 10 ∷ l₃)))))
  where
    accepted :
        (bytes : List ℕ)
        → 0 < length bytes
        → length bytes ≤ 65536
        → ends_with_break bytes ≡ true
        → is_refused bytes ≡ false
    accepted bytes some_byte few closed = ground arith

pub split_written :
    (bytes l₀ l₁ l₂ l₃ : List ℕ)
    → bytes ≡ join_lines (l₀ ∷ l₁ ∷ l₂ ∷ l₃ ∷ [])
    → All IsLine (l₀ ∷ l₁ ∷ l₂ ∷ l₃ ∷ [])
    → split_lines (take (length bytes - 1) bytes) ≡ l₀ ∷ l₁ ∷ l₂ ∷ l₃ ∷ []
split_written bytes l₀ l₁ l₂ l₃ e a =
    rw (e, join_four l₀ l₁ l₂ l₃, front_of (l₀ ++ 10 ∷ (l₁ ++ 10 ∷ (l₂ ++ 10 ∷ l₃))))
      (split_four l₀ l₁ l₂ l₃ a)
