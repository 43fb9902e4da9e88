-- ===== src/Collector/Journal/Steps.antt =====
-- What one line of a journal passes through in crates/leelo-collector/src/reconcile.rs.
use leelo.Base.{
  ℕ, suc, ◌-◌, ◌≤◌, ◌<◌, ◌≡◌, refl, sym, ◌∙◌, subst, List, [], ◌∷◌, Bool, true, false, not, Option,
  none, some, ltb, ◌==◌, ==_refl, if◌then◌else◌, length, get_elem?, bytes_eq, bytes_eq→eq,
  eq→bytes_eq, &&-eq-true, ◌&&◌, bytes_eq_refl, some_injective, codes, arith,
}
use leelo.Collector.Types.{IdentityRecord, BundleRecord}
use leelo.Collector.Journal.Hex.{lower_hex}
use leelo.Collector.Journal.{
  Identity, is_other, ◌>>=◌, require, journal_identity, phases, check_bundle, observe_identity,
  check_line, check_lines,
}

pub bind-some {ℓ κ} :
    {A : Type ℓ} {B : Type κ} (first : Option A) (rest : A → Option B) {last : B}
    → (first >>= rest) ≡ some last
    → (v : A) × (first ≡ some v) × (rest v ≡ some last)
bind-some none rest h = cc
bind-some (some v) rest h = (v, refl, h)

pub require-some : (b : Bool) {v : Unit {0}} → require b ≡ some v → b ≡ true
require-some true h = refl
require-some false h = cc

pub nonzero : (n : ℕ) → 0 < n → (n == 0) ≡ false
nonzero n h = ground arith

pub not-true : (b : Bool) → not b ≡ true → b ≡ false
not-true true h = cc
not-true false h = refl

module _ (parse_identity : List ℕ → Option IdentityRecord)
    (parse_bundle : List ℕ → Option BundleRecord) where
  -- A line that records the identity `i` in the phase.
  abbrev pub IsIdentityLine : List ℕ → Identity → List ℕ → Type 0
  IsIdentityLine phase i line =
      (r : IdentityRecord) × (parse_identity line ≡ some r)
      × (r.phase ≡ phase)
      × (journal_identity r ≡ some i)

  -- A line that records a bundle at a path, with its digest.
  abbrev pub IsBundleLine : List ℕ → List ℕ → Type 0
  IsBundleLine phase line =
      (r : BundleRecord) × (parse_bundle line ≡ some r)
      × (r.phase ≡ phase)
      × (0 < length r.path)
      × ((digest : List ℕ) × (lower_hex 48 r.sha384 ≡ some digest))

  pub check_bundle-IsBundleLine :
      (phase line : List ℕ) {v : Unit {0}}
      → check_bundle parse_identity parse_bundle phase line ≡ some v
      → IsBundleLine phase line
  unfolding check_bundle
  check_bundle-IsBundleLine phase line h =
      let (r, parsed, h₁) = bind-some (parse_bundle line) _ h in
      let (_, guarded, h₂) =
        bind-some (require (bytes_eq r.phase phase && not (length r.path == 0))) _ h₁ in
      let (digest, hex, _) = bind-some (lower_hex 48 r.sha384) _ h₂ in
      let (same, some_path) = &&-eq-true (bytes_eq r.phase phase) _ (require-some _ guarded) in
      (r, parsed, bytes_eq→eq r.phase phase same, ground arith, (digest, hex))

  pub IsBundleLine-check_bundle :
      (phase line : List ℕ)
      → IsBundleLine phase line
      → check_bundle parse_identity parse_bundle phase line ≡ some tt
  unfolding check_bundle
  IsBundleLine-check_bundle phase line (r, parsed, same, some_path, (digest, hex)) =
      rw (parsed, eq→bytes_eq r.phase phase same, nonzero (length r.path) some_path, hex) refl

  pub observe_identity-IsIdentityLine :
      (phase : List ℕ) (known : Option Identity) (line : List ℕ) (i : Identity)
      → observe_identity parse_identity parse_bundle phase known line ≡ some i
      → IsIdentityLine phase i line × (is_other known i ≡ false)
  unfolding observe_identity
  observe_identity-IsIdentityLine phase known line i h =
      let (r, parsed, h₁) = bind-some (parse_identity line) _ h in
      let (_, guarded, h₂) = bind-some (require (bytes_eq r.phase phase)) _ h₁ in
      let (seen, read, h₃) = bind-some (journal_identity r) _ h₂ in
      let (_, kept, h₄) = bind-some (require (not (is_other known seen))) _ h₃ in
      let same = some_injective h₄ in
      (
        (
          r,
          parsed,
          bytes_eq→eq r.phase phase (require-some _ guarded),
          subst (λ x. journal_identity r ≡ some x) same read,
        ),
        subst (λ x. is_other known x ≡ false) same
            (not-true (is_other known seen) (require-some _ kept)),
      )

  pub IsIdentityLine-observe_identity :
      (phase : List ℕ) (known : Option Identity) (line : List ℕ) (i : Identity)
      → IsIdentityLine phase i line
      → is_other known i ≡ false
      → observe_identity parse_identity parse_bundle phase known line ≡ some i
  unfolding observe_identity
  IsIdentityLine-observe_identity phase known line i (r, parsed, same, read) kept =
      rw (parsed, eq→bytes_eq r.phase phase same, read, kept) refl

pub is_other-false : (i j : Identity) → is_other (some i) j ≡ false → i ≡ j
is_other-false (b, v, s) (b', v', s') h =
    triple (bytes_eq→eq b b' (ground arith)) (bytes_eq→eq v v' (ground arith)) (ground arith)
  where
    triple : b ≡ b' → v ≡ v' → s ≡ s' → ◌≡◌ {A = Identity} (b, v, s) (b', v', s')
    triple p q r = cc

pub is_other_same : (i : Identity) → is_other (some i) i ≡ false
is_other_same (b, v, s) = rw (bytes_eq_refl b, bytes_eq_refl v, ==_refl s) refl

pub if-none {ℓ} :
    {A : Type ℓ} (b : Bool) (x : Option A) {v : A}
    → (if b then none else x) ≡ some v
    → (b ≡ false) × (x ≡ some v)
if-none true x h = cc
if-none false x h = (refl, h)

pub if-false {ℓ} :
    {A : Type ℓ} (b : Bool) (x y : A) {v : A} → b ≡ false → (if b then x else y) ≡ v → y ≡ v
if-false true x y h e = cc
if-false false x y h e = e

pub not_over : {bound n : ℕ} → n ≤ bound → ltb bound n ≡ false
not_over h = ground arith

module _ (parse_identity : List ℕ → Option IdentityRecord)
    (parse_bundle : List ℕ → Option BundleRecord) where
  abbrev pub Checked : ℕ → Option Identity → List ℕ → Option Identity → Type 0
  Checked count known line after =
      check_line parse_identity parse_bundle count known line ≡ some after

  pub check_line_short :
      (count : ℕ) (known : Option Identity) (line : List ℕ) (after : Option Identity)
      → Checked count known line after
      → length line ≤ 8192
  unfolding check_line
  check_line_short count known line after h = ground arith

  -- One step of the loop over the lines.
  pub check_lines_step :
      (count : ℕ) (known : Option Identity) (committed : Bool) (line : List ℕ)
      (lines : List (List ℕ)) {result : Bool}
      → check_lines parse_identity parse_bundle count known committed (line ∷ lines) ≡ some result
      → (after : Option Identity) × Checked count known line after
        × (check_lines parse_identity parse_bundle
              (suc count)
              after
              (count == length phases - 1)
              lines
            ≡ some result)
  unfolding check_lines
  check_lines_step count known committed line lines h =
      bind-some (check_line parse_identity parse_bundle count known line) _ h

  pub check_lines_end :
      (count : ℕ) (known : Option Identity) (committed : Bool) {result : Bool}
      → check_lines parse_identity parse_bundle count known committed [] ≡ some result
      → committed ≡ result
  unfolding check_lines
  check_lines_end count known committed h = some_injective h

  -- There is no fifth phase.
  pub no_fifth :
      (known : Option Identity) (line : List ℕ) (after : Option Identity)
      → ¬ Checked 4 known line after
  unfolding check_line
  no_fifth known line after h = ground arith

  pub checked-IsIdentityLine :
      (count : ℕ) (phase : List ℕ) (known : Option Identity) (line : List ℕ)
      (after : Option Identity)
      → get_elem? phases count ≡ some phase
      → (count == 1) ≡ false
      → Checked count known line after
      → (i : Identity) × (after ≡ some i)
        × IsIdentityLine parse_identity parse_bundle phase i line
        × (is_other known i ≡ false)
  unfolding check_line
  checked-IsIdentityLine count phase known line after at_phase other h =
      let (_, h₁) = if-none (ltb 8192 (length line)) _ h in
      let (phase', found, h₂) = bind-some (get_elem? phases count) _ h₁ in
      let same = some_injective (sym found ∙ at_phase) in
      let (i, observed, h₃) =
        bind-some (observe_identity parse_identity parse_bundle phase' known line) _
          (if-false (count == 1) _ _ other h₂) in
      let (is_line, kept) =
        observe_identity-IsIdentityLine parse_identity parse_bundle phase' known line i observed in
      (
        i,
        some_injective (sym h₃),
        subst (λ x. IsIdentityLine parse_identity parse_bundle x i line) same is_line,
        kept,
      )

  pub checked-IsBundleLine :
      (known : Option Identity) (line : List ℕ) (after : Option Identity)
      → Checked 1 known line after
      → (after ≡ known)
        × IsBundleLine parse_identity parse_bundle (codes "pending-bundle-durable") line
  unfolding check_line
  checked-IsBundleLine known line after h =
      let (_, h₁) = if-none (ltb 8192 (length line)) _ h in
      let (_, checked, h₂) =
        bind-some (check_bundle parse_identity parse_bundle (codes "pending-bundle-durable") line) _
          h₁ in
      (
        some_injective (sym h₂),
        check_bundle-IsBundleLine parse_identity parse_bundle _ line checked,
      )

  pub IsIdentityLine-checked :
      (count : ℕ) (phase : List ℕ) (known : Option Identity) (line : List ℕ) (i : Identity)
      → get_elem? phases count ≡ some phase
      → (count == 1) ≡ false
      → length line ≤ 8192
      → IsIdentityLine parse_identity parse_bundle phase i line
      → is_other known i ≡ false
      → Checked count known line (some i)
  unfolding check_line
  IsIdentityLine-checked count phase known line i at_phase other short is_line kept =
      rw
        (
          not_over short,
          at_phase,
          other,
          IsIdentityLine-observe_identity parse_identity parse_bundle phase known line i is_line
              kept,
        )
        refl

  pub IsBundleLine-checked :
      (known : Option Identity) (line : List ℕ)
      → length line ≤ 8192
      → IsBundleLine parse_identity parse_bundle (codes "pending-bundle-durable") line
      → Checked 1 known line known
  unfolding check_line
  IsBundleLine-checked known line short is_line =
      rw
        (
          not_over short,
          IsBundleLine-check_bundle parse_identity parse_bundle (codes "pending-bundle-durable")
              line is_line,
        )
        refl
