-- ===== src/Collector/Boots/Latest.antt =====
-- The latest observation of a boot and its contradictions, in
-- crates/leelo-collector/src/reconcile.rs.
use leelo.Base.{
  ◌≤◌, ◌≡◌, ◌↔◌, ◌⊎◌, inl, inr, refl, sym, ◌∙◌, ap, subst, List, [], ◌∷◌, true, false, some, ltb,
  if◌then◌else◌, bytes_eq→eq, some_injective, eq→bytes_eq, Bool-cases, arith,
}
use mathlib.Core.List.{Memᴰ}
use mathlib.Core.List.Memᴰ
use leelo.Collector.Types.{ExpectedBoot, BootObservation, success}
use leelo.Collector.Boots.{
  is_of, is_same, matching, later, latest_from, latest, disagrees, conflicts,
}

-- The observation is of the expected boot and not from before its request.
abbrev pub Answers : ExpectedBoot → BootObservation → Type 0
Answers expected v =
    (v.target ≡ expected.target)
    × (v.boot_id ≡ expected.boot_id)
    × (expected.requested_at_ms ≤ v.observed_at_ms)

-- An observation `v` that proves the boot: in time, and no other is later or at the same time
-- a failure.
pub record Proves (expected : ExpectedBoot) (values : List BootObservation) (v : BootObservation)
    : Type 0 where
  pub observed : Memᴰ v values
  pub answers : Answers expected v
  pub succeeded : v.outcome ≡ success
  pub in_time : v.observed_at_ms ≤ expected.deadline_ms
  pub last :
      (w : BootObservation)
      → Memᴰ w values
      → Answers expected w
      → (w.observed_at_ms ≤ v.observed_at_ms)
        × (w.observed_at_ms ≡ v.observed_at_ms → w.outcome ≡ success)

pub is_of-Answers : (e : ExpectedBoot) (v : BootObservation) → (is_of e v ≡ true) ↔ Answers e v
is_of-Answers e v = (
  λ h. (
    bytes_eq→eq v.target e.target (ground arith),
    bytes_eq→eq v.boot_id e.boot_id (ground arith),
    ground arith,
  ),
  λ a. ground (arith, eq→bytes_eq v.target e.target a.0, eq→bytes_eq v.boot_id e.boot_id a.1, a.2),
)

pub matching_sound :
    (e : ExpectedBoot) (values : List BootObservation) (v : BootObservation)
    → Memᴰ v (matching e values)
    → Memᴰ v values × (is_of e v ≡ true)
unfolding matching
matching_sound e [] v m = absurd (Memᴰ.not-nil m)
matching_sound e (w ∷ ws) v m = elim (Bool-cases (is_of e w)) [
  | inl fits ↦
      let m' = subst (λ b. Memᴰ v (if b then w ∷ matching e ws else matching e ws)) fits m in
      elim (Memᴰ.cases_cons m') [
        | inl here ↦ (Memᴰ.head here, subst (λ o. is_of e o ≡ true) (sym here) fits)
        | inr there ↦ let (i, o) = matching_sound e ws v there in (Memᴰ.tail i, o)
      ]
  | inr other ↦
      let (i, o) =
        matching_sound e ws v
          (subst (λ b. Memᴰ v (if b then w ∷ matching e ws else matching e ws)) other m) in
      (Memᴰ.tail i, o)
]

pub matching_complete :
    (e : ExpectedBoot) (values : List BootObservation) (v : BootObservation)
    → Memᴰ v values
    → is_of e v ≡ true
    → Memᴰ v (matching e values)
unfolding matching
matching_complete e [] v m o = absurd (Memᴰ.not-nil m)
matching_complete e (w ∷ ws) v m o = elim (Memᴰ.cases_cons m) [
  | inl here ↦ rw (subst (λ x. is_of e x ≡ true) here o) (Memᴰ.head here)
  | inr there ↦ elim (Bool-cases (is_of e w)) [
    | inl fits ↦ rw fits (Memᴰ.tail (matching_complete e ws v there o))
    | inr other ↦ rw other (matching_complete e ws v there o)
  ]
]

-- `later` gives one of the two, and neither is later than it.
pub later_law :
    (best v : BootObservation)
    → ((later best v ≡ best) ⊎ (later best v ≡ v))
      × (best.observed_at_ms ≤ (later best v).observed_at_ms)
      × (v.observed_at_ms ≤ (later best v).observed_at_ms)
unfolding later
later_law best v = elim (Bool-cases (ltb v.observed_at_ms best.observed_at_ms)) [
  | inl older ↦ rw older (inl refl, omega arith, ground arith)
  | inr newer ↦ rw newer (inr refl, ground arith, omega arith)
]

-- The fold gives one of its elements, and none is later.
pub latest_from_law :
    (best : BootObservation) (values : List BootObservation)
    → Memᴰ (latest_from best values) (best ∷ values)
      × ((w : BootObservation)
          → Memᴰ w (best ∷ values)
          → w.observed_at_ms ≤ (latest_from best values).observed_at_ms)
unfolding latest_from
latest_from_law best [] = (
  Memᴰ.head refl,
  λ w m. elim (Memᴰ.cases_cons m) [
    | inl here ↦ omega (arith, ap (λ (x : BootObservation). x.observed_at_ms) here)
    | inr there ↦ absurd (Memᴰ.not-nil there)
  ],
)
latest_from_law best (v ∷ vs) =
    let (found, above) = latest_from_law (later best v) vs in
    let (one, best_le, v_le) = later_law best v in
    let top = above (later best v) (Memᴰ.head refl) in
    (
      elim (Memᴰ.cases_cons found) [
        | inl here ↦ elim one [
          | inl is_best ↦ Memᴰ.head (here ∙ is_best)
          | inr is_v ↦ Memᴰ.tail (Memᴰ.head (here ∙ is_v))
        ]
        | inr there ↦ Memᴰ.tail (Memᴰ.tail there)
      ],
      λ w m. elim (Memᴰ.cases_cons m) [
        | inl here ↦ omega (arith, ap (λ (x : BootObservation). x.observed_at_ms) here)
        | inr m' ↦ elim (Memᴰ.cases_cons m') [
          | inl here ↦ omega (arith, ap (λ (x : BootObservation). x.observed_at_ms) here)
          | inr there ↦ above w (Memᴰ.tail there)
        ]
      ],
    )

-- At the same name and time, the same outcome.
abbrev pub Agrees : ExpectedBoot → BootObservation → BootObservation → Type 0
Agrees e last w =
    w.target ≡ e.target
    → w.boot_id ≡ e.boot_id
    → w.observed_at_ms ≡ last.observed_at_ms
    → is_same w.outcome last.outcome ≡ true

pub disagrees-false :
    (e : ExpectedBoot) (last w : BootObservation) → (disagrees e last w ≡ false) ↔ Agrees e last w
unfolding disagrees
disagrees-false e last w = (
  λ h t b s.
      ground (arith, eq→bytes_eq w.target e.target t, eq→bytes_eq w.boot_id e.boot_id b, s, h),
  λ a. ground (arith, a, bytes_eq→eq w.target e.target, bytes_eq→eq w.boot_id e.boot_id),
)

pub conflicts-false :
    (e : ExpectedBoot) (last : BootObservation) (values : List BootObservation)
    → (conflicts e last values ≡ false) ↔ ((w : BootObservation) → Memᴰ w values → Agrees e last w)
unfolding conflicts
conflicts-false e last [] = (λ h w m. absurd (Memᴰ.not-nil m), λ h. refl)
conflicts-false e last (v ∷ vs) =
    let (there, back) = conflicts-false e last vs in
    (
      λ h w m. elim (Memᴰ.cases_cons m) [
        | inl here ↦ subst (Agrees e last) (sym here) ((disagrees-false e last v).0 (ground arith))
        | inr inside ↦ there (ground arith) w inside
      ],
      λ h. ground (
        arith,
        (disagrees-false e last v).1 (h v (Memᴰ.head refl)),
        back (λ w m. h w (Memᴰ.tail m)),
      ),
    )

pub latest_law :
    (values : List BootObservation) (r : BootObservation)
    → latest values ≡ some r
    → Memᴰ r values × ((w : BootObservation) → Memᴰ w values → w.observed_at_ms ≤ r.observed_at_ms)
latest_law [] r h = cc
latest_law (v ∷ vs) r h =
    subst
      (λ x.
        Memᴰ x (v ∷ vs)
        × ((w : BootObservation) → Memᴰ w (v ∷ vs) → w.observed_at_ms ≤ x.observed_at_ms))
      (some_injective h) (latest_from_law v vs)

pub latest-some :
    (values : List BootObservation) (v : BootObservation)
    → Memᴰ v values
    → (r : BootObservation) × (latest values ≡ some r)
latest-some [] v m = absurd (Memᴰ.not-nil m)
latest-some (w ∷ ws) v m = (latest_from w ws, refl)
