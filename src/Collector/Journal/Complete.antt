-- ===== src/Collector/Journal/Complete.antt =====
-- Which journals crates/leelo-collector/src/reconcile.rs takes as committed.
use leelo.Base.{
  ℕ, suc, ◌-◌, ◌≤◌, ◌≡◌, ◌↔◌, refl, sym, ◌∙◌, subst, List, [], ◌∷◌, Bool, true, false, Option, none,
  some, ◌==◌, length, take, All, codes,
}
use leelo.Collector.Types.{IdentityRecord, BundleRecord}
use leelo.Collector.Journal.{
  Identity, is_other, phases, split_lines, check_lines, journal_committed,
}
use leelo.Collector.Journal.Lines.{IsLine, join_lines, split_lines_law}
use leelo.Collector.Journal.Steps.{
  IsIdentityLine, IsBundleLine, Checked, check_line_short, check_lines_step, check_lines_end,
  no_fifth, checked-IsIdentityLine, checked-IsBundleLine, IsIdentityLine-checked,
  IsBundleLine-checked, is_other-false, is_other_same, if-none,
}
use leelo.Collector.Journal.Four.{
  front_break, is_refused, not_refused, four_accepted, split_written,
}

module _ (parse_identity : List ℕ → Option IdentityRecord)
    (parse_bundle : List ℕ → Option BundleRecord) where
  -- The four records of a complete enrollment, one to a line, with one identity.
  pub record IsCommitted (bytes : List ℕ) : Type 0 where
    pub identity : Identity
    pub first : List ℕ
    pub second : List ℕ
    pub third : List ℕ
    pub fourth : List ℕ
    pub written : bytes ≡ join_lines (first ∷ second ∷ third ∷ fourth ∷ [])
    pub lines : All IsLine (first ∷ second ∷ third ∷ fourth ∷ [])
    pub short : All (λ l. length l ≤ 8192) (first ∷ second ∷ third ∷ fourth ∷ [])
    pub preflight : IsIdentityLine parse_identity parse_bundle (codes "preflight") identity first
    pub bundle : IsBundleLine parse_identity parse_bundle (codes "pending-bundle-durable") second
    pub prepared :
        IsIdentityLine parse_identity parse_bundle
          (codes "prepared-and-recovery-tested")
          identity
          third
    pub token :
        IsIdentityLine parse_identity parse_bundle
          (codes "token-written-and-slot-tested")
          identity
          fourth

  -- The four lines of a journal that is committed, each checked with what is known before it.
  abbrev AreFour : List (List ℕ) → Type 0
  AreFour lines =
      (l₀ l₁ l₂ l₃ : List ℕ) × ((k₀ k₁ k₂ k₃ : Option Identity) × (lines ≡ l₀ ∷ l₁ ∷ l₂ ∷ l₃ ∷ [])
        × Checked parse_identity parse_bundle 0 none l₀ k₀
        × Checked parse_identity parse_bundle 1 k₀ l₁ k₁
        × Checked parse_identity parse_bundle 2 k₁ l₂ k₂
        × Checked parse_identity parse_bundle 3 k₂ l₃ k₃)

  step :
      (count : ℕ) (known : Option Identity) (committed : Bool) (line : List ℕ)
      (lines : List (List ℕ))
      → check_lines parse_identity parse_bundle count known committed (line ∷ lines) ≡ some true
      → (after : Option Identity) × Checked parse_identity parse_bundle count known line after
        × (check_lines parse_identity parse_bundle
              (suc count)
              after
              (count == length phases - 1)
              lines
            ≡ some true)
  step count known committed line lines h =
      check_lines_step parse_identity parse_bundle count known committed line lines h

  false_end : ¬ (false ≡ true)
  false_end h = cc

  check_lines-AreFour :
      (lines : List (List ℕ))
      → check_lines parse_identity parse_bundle 0 none false lines ≡ some true
      → AreFour lines
  check_lines-AreFour [] h =
      absurd (false_end (check_lines_end parse_identity parse_bundle 0 none false h))
  check_lines-AreFour (l₀ ∷ []) h =
      let (k₀, _, h₀) = step 0 none false l₀ [] h in
      absurd (false_end (check_lines_end parse_identity parse_bundle 1 k₀ false h₀))
  check_lines-AreFour (l₀ ∷ l₁ ∷ []) h =
      let (k₀, _, h₀) = step 0 none false l₀ (l₁ ∷ []) h in
      let (k₁, _, h₁) = step 1 k₀ false l₁ [] h₀ in
      absurd (false_end (check_lines_end parse_identity parse_bundle 2 k₁ false h₁))
  check_lines-AreFour (l₀ ∷ l₁ ∷ l₂ ∷ []) h =
      let (k₀, _, h₀) = step 0 none false l₀ (l₁ ∷ l₂ ∷ []) h in
      let (k₁, _, h₁) = step 1 k₀ false l₁ (l₂ ∷ []) h₀ in
      let (k₂, _, h₂) = step 2 k₁ false l₂ [] h₁ in
      absurd (false_end (check_lines_end parse_identity parse_bundle 3 k₂ false h₂))
  check_lines-AreFour (l₀ ∷ l₁ ∷ l₂ ∷ l₃ ∷ []) h =
      let (k₀, c₀, h₀) = step 0 none false l₀ (l₁ ∷ l₂ ∷ l₃ ∷ []) h in
      let (k₁, c₁, h₁) = step 1 k₀ false l₁ (l₂ ∷ l₃ ∷ []) h₀ in
      let (k₂, c₂, h₂) = step 2 k₁ false l₂ (l₃ ∷ []) h₁ in
      let (k₃, c₃, _) = step 3 k₂ false l₃ [] h₂ in
      (l₀, l₁, l₂, l₃, (k₀, k₁, k₂, k₃, refl, c₀, c₁, c₂, c₃))
  check_lines-AreFour (l₀ ∷ l₁ ∷ l₂ ∷ l₃ ∷ l₄ ∷ ls) h =
      let (k₀, _, h₀) = step 0 none false l₀ (l₁ ∷ l₂ ∷ l₃ ∷ l₄ ∷ ls) h in
      let (k₁, _, h₁) = step 1 k₀ false l₁ (l₂ ∷ l₃ ∷ l₄ ∷ ls) h₀ in
      let (k₂, _, h₂) = step 2 k₁ false l₂ (l₃ ∷ l₄ ∷ ls) h₁ in
      let (k₃, _, h₃) = step 3 k₂ false l₃ (l₄ ∷ ls) h₂ in
      let (k₄, c₄, _) = step 4 k₃ true l₄ ls h₃ in
      absurd (no_fifth parse_identity parse_bundle k₃ l₄ k₄ c₄)

  AreFour-check_lines :
      (lines : List (List ℕ))
      → AreFour lines
      → check_lines parse_identity parse_bundle 0 none false lines ≡ some true
  unfolding check_lines
  AreFour-check_lines lines (l₀, l₁, l₂, l₃, (k₀, k₁, k₂, k₃, e, c₀, c₁, c₂, c₃)) =
      rw (e, c₀, c₁, c₂, c₃) refl

  AreFour-IsCommitted :
      (bytes : List ℕ)
      → join_lines (split_lines (take (length bytes - 1) bytes)) ≡ bytes
      → All IsLine (split_lines (take (length bytes - 1) bytes))
      → AreFour (split_lines (take (length bytes - 1) bytes))
      → IsCommitted bytes
  AreFour-IsCommitted bytes joined all_lines (l₀, l₁, l₂, l₃, (k₀, k₁, k₂, k₃, e, c₀, c₁, c₂, c₃)) =
      let (i, is_i, line₀, _) =
        checked-IsIdentityLine parse_identity parse_bundle 0 _ none l₀ k₀ refl refl c₀ in
      let (same₁, line₁) = checked-IsBundleLine parse_identity parse_bundle k₀ l₁ k₁ c₁ in
      let (i₂, is_i₂, line₂, kept₂) =
        checked-IsIdentityLine parse_identity parse_bundle 2 _ k₁ l₂ k₂ refl refl c₂ in
      let (i₃, is_i₃, line₃, kept₃) =
        checked-IsIdentityLine parse_identity parse_bundle 3 _ k₂ l₃ k₃ refl refl c₃ in
      let e₂ = is_other-false i i₂ (subst (λ x. is_other x i₂ ≡ false) (same₁ ∙ is_i) kept₂) in
      let e₃ = is_other-false i₂ i₃ (subst (λ x. is_other x i₃ ≡ false) is_i₂ kept₃) in
      record {
        identity = i;
        first = l₀;
        second = l₁;
        third = l₂;
        fourth = l₃;
        written = subst (λ x. bytes ≡ join_lines x) e (sym joined);
        lines = subst (All IsLine) e all_lines;
        short = (
          check_line_short parse_identity parse_bundle 0 none l₀ k₀ c₀,
          (
            check_line_short parse_identity parse_bundle 1 k₀ l₁ k₁ c₁,
            (
              check_line_short parse_identity parse_bundle 2 k₁ l₂ k₂ c₂,
              (check_line_short parse_identity parse_bundle 3 k₂ l₃ k₃ c₃, tt),
            ),
          ),
        );
        preflight = line₀;
        bundle = line₁;
        prepared =
            subst
              (λ x.
                IsIdentityLine parse_identity parse_bundle (codes "prepared-and-recovery-tested") x
                  l₂)
              (sym e₂) line₂;
        token =
            subst
              (λ x.
                IsIdentityLine parse_identity parse_bundle (codes "token-written-and-slot-tested") x
                  l₃)
              (sym (e₂ ∙ e₃)) line₃;
      }

  IsCommitted-AreFour :
      (bytes : List ℕ) (c : IsCommitted bytes)
      → AreFour (c.first ∷ c.second ∷ c.third ∷ c.fourth ∷ [])
  IsCommitted-AreFour bytes c =
      let (s₀, (s₁, (s₂, (s₃, _)))) = c.short in
      let i = c.identity in
      (
        c.first,
        c.second,
        c.third,
        c.fourth,
        (
          some i,
          some i,
          some i,
          some i,
          refl,
          IsIdentityLine-checked parse_identity parse_bundle 0 _ none c.first i refl refl s₀
              c.preflight refl,
          IsBundleLine-checked parse_identity parse_bundle (some i) c.second s₁ c.bundle,
          IsIdentityLine-checked parse_identity parse_bundle 2 _ (some i) c.third i refl refl s₂
              c.prepared (is_other_same i),
          IsIdentityLine-checked parse_identity parse_bundle 3 _ (some i) c.fourth i refl refl s₃
              c.token (is_other_same i),
        ),
      )

  -- A journal counts as committed exactly when it is the four records of a complete enrollment in
  -- their order, one to a line, each short enough, all with the phases' names and one identity.
  pub journal_committed_iff :
      (bytes : List ℕ)
      → (journal_committed parse_identity parse_bundle bytes ≡ some true) ↔ IsCommitted bytes
  unfolding journal_committed
  journal_committed_iff bytes = (
    λ h.
        let (closed, checked) = if-none (is_refused bytes) _ h in
        let (all_lines, _, joined) = split_lines_law (take (length bytes - 1) bytes) in
        AreFour-IsCommitted bytes (joined ∙ front_break bytes (not_refused bytes closed)) all_lines
          (check_lines-AreFour _ checked),
    λ c.
        rw
          (
            four_accepted bytes c.first c.second c.third c.fourth c.written c.short,
            split_written bytes c.first c.second c.third c.fourth c.written c.lines,
          )
          (AreFour-check_lines _ (IsCommitted-AreFour bytes c)),
  )
