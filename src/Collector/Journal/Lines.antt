-- ===== src/Collector/Journal/Lines.antt =====
-- The lines of a journal of crates/leelo-collector/src/reconcile.rs, split and joined.
use leelo.Base.{
  ℕ, ◌<◌, ◌≡◌, inl, inr, refl, sym, ap, ap₂, List, [], ◌∷◌, ◌++◌, ◌==◌, ==_iff, if◌then◌else◌,
  length, All, Bool-cases, arith,
}
use leelo.Collector.Journal.{split_lines, add_front}

-- Without a line break.
abbrev pub IsLine : List ℕ → Type 0
IsLine l = All (λ b. ¬ (b ≡ 10)) l

-- Each line with a line break after it.
abbrev pub join_lines : List (List ℕ) → List ℕ
join_lines [] = []
join_lines (l ∷ ls) = l ++ 10 ∷ join_lines ls

pub split_lines-line : (l : List ℕ) → IsLine l → split_lines l ≡ l ∷ []
unfolding split_lines
split_lines-line [] a = refl
split_lines-line (b ∷ bs) a = elim (Bool-cases (b == 10)) [
  | inl same ↦ absurd (a.0 (ground arith))
  | inr other ↦ rw (other, split_lines-line bs a.1) refl
]

pub split_lines-append :
    (l rest : List ℕ) → IsLine l → split_lines (l ++ 10 ∷ rest) ≡ l ∷ split_lines rest
unfolding split_lines
split_lines-append [] rest a = refl
split_lines-append (b ∷ bs) rest a = elim (Bool-cases (b == 10)) [
  | inl same ↦ absurd (a.0 (ground arith))
  | inr other ↦ rw (other, split_lines-append bs rest a.1) refl
]

-- The pieces have no line break, and joined they are what was split and a last line break.
pub split_lines_law :
    (bytes : List ℕ)
    → All IsLine (split_lines bytes)
      × (0 < length (split_lines bytes))
      × (join_lines (split_lines bytes) ≡ bytes ++ 10 ∷ [])
unfolding split_lines
split_lines_law [] = ((tt, tt), omega arith, refl)
split_lines_law (b ∷ bs) = step b bs (split_lines bs) (split_lines_law bs)
  where
    step :
        (b : ℕ) (bs : List ℕ) (lines : List (List ℕ))
        → All IsLine lines × (0 < length lines) × (join_lines lines ≡ bs ++ 10 ∷ [])
        → All IsLine (if b == 10 then [] ∷ lines else add_front b lines)
          × (0 < length (if b == 10 then [] ∷ lines else add_front b lines))
          × (join_lines (if b == 10 then [] ∷ lines else add_front b lines) ≡ b ∷ bs ++ 10 ∷ [])
    step b bs [] (a, some_line, j) = absurd (omega (arith, some_line))
    step b bs (l ∷ ls) (a, some_line, j) = elim (Bool-cases (b == 10)) [
      | inl same ↦ rw same ((tt, a), omega arith, ap₂ ◌∷◌ (sym ((==_iff b 10).0 same)) j)
      | inr other ↦ rw other (((λ e. ground arith, a.0), a.1), omega arith, ap (λ x. b ∷ x) j)
    ]
