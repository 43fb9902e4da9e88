-- ===== src/Collector/Boots/Names.antt =====
-- Which expected boots crates/leelo-collector/src/reconcile.rs admits.
use leelo.Base.{
  ℕ, le→ltb_false, ◌≤◌, ◌<◌, ◌≡◌, ◌↔◌, refl, List, [], ◌∷◌, Bool, true, false, not, ◌&&◌, ◌||◌, ltb,
  leb, ◌==◌, length, All, bytes_eq, bytes_eq→eq, eq→bytes_eq, &&-eq-true, if◌then◌else◌, codes,
  arith,
}
use leelo.Collector.Types.{ExpectedBoot}
use leelo.Collector.Boots.{
  is_ascii_alphanumeric, contains, all_bytes, reference, is_repeated, check_boots,
}

-- A letter, a digit, or one of `_`, `-`, `.` and `:`.
abbrev pub is_name_byte : ℕ → Bool
is_name_byte v = is_ascii_alphanumeric v || contains (codes "_-.:") v

abbrev pub IsReference : List ℕ → Type 0
IsReference value =
    (0 < length value) × (length value ≤ 64) × All (λ b. is_name_byte b ≡ true) value

abbrev pub IsOrdered : ℕ → ExpectedBoot → Type 0
IsOrdered updated_at_ms b =
    (b.requested_at_ms ≤ b.deadline_ms) × (b.requested_at_ms ≤ updated_at_ms)

-- Another target or another boot.
abbrev pub HaveOtherNames : ExpectedBoot → ExpectedBoot → Type 0
HaveOtherNames a b = ¬ ((a.target ≡ b.target) × (a.boot_id ≡ b.boot_id))

abbrev pub DistinctNames : List ExpectedBoot → Type 0
DistinctNames [] = Unit
DistinctNames (b ∷ bs) = All (λ o. HaveOtherNames b o) bs × DistinctNames bs

abbrev pub IsValidBoot : ℕ → ExpectedBoot → Type 0
IsValidBoot updated_at_ms b =
    IsReference b.target × IsReference b.boot_id × IsOrdered updated_at_ms b

all_bytes-All :
    (test : ℕ → Bool) (bs : List ℕ) → (all_bytes test bs ≡ true) ↔ All (λ b. test b ≡ true) bs
all_bytes-All test [] = (λ h. tt, λ h. refl)
all_bytes-All test (b ∷ bs) =
    let (there, back) = all_bytes-All test bs in
    (
      λ h. let (here, rest) = &&-eq-true (test b) _ h in (here, there rest),
      λ (here, rest). rw (here, back rest) refl,
    )

reference_iff : (value : List ℕ) → (reference value ≡ true) ↔ IsReference value
unfolding reference
reference_iff value = (
  λ h.
      let (bounds, bytes) = &&-eq-true _ (all_bytes is_name_byte value) h in
      (ground arith, ground arith, (all_bytes-All is_name_byte value).0 bytes),
  λ (some_byte, few, bytes).
      let all = (all_bytes-All is_name_byte value).1 bytes in
      rw all (bounded (length value) some_byte few),
)
  where
    bounded : (n : ℕ) → 0 < n → n ≤ 64 → (not (n == 0) && leb n 64 && true) ≡ true
    bounded n h k = ground arith

is_repeated-false :
    (b : ExpectedBoot) (seen : List ExpectedBoot)
    → (is_repeated b seen ≡ false) ↔ All (λ o. HaveOtherNames o b) seen
is_repeated-false b [] = (λ h. tt, λ h. refl)
is_repeated-false b (o ∷ os) =
    let (there, back) = is_repeated-false b os in
    (
      λ h. (
        λ (t, i).
            ground (arith, h, eq→bytes_eq o.target b.target t, eq→bytes_eq o.boot_id b.boot_id i),
        there (ground arith),
      ),
      λ (other, rest). rw (differs o b other, back rest) refl,
    )
  where
    differs :
        (o b : ExpectedBoot)
        → HaveOtherNames o b
        → (bytes_eq o.target b.target && bytes_eq o.boot_id b.boot_id) ≡ false
    differs o b other =
        ground (arith, other, bytes_eq→eq o.target b.target, bytes_eq→eq o.boot_id b.boot_id)

-- Every one of `bs` has another name than all of `seen`.
abbrev AllNew : List ExpectedBoot → List ExpectedBoot → Type 0
AllNew seen bs = All (λ b. All (λ o. HaveOtherNames o b) seen) bs

AllNew-cons :
    (b : ExpectedBoot) (seen bs : List ExpectedBoot)
    → (All (λ o. HaveOtherNames b o) bs × AllNew seen bs) ↔ AllNew (b ∷ seen) bs
AllNew-cons b seen [] = (λ h. tt, λ h. (tt, tt))
AllNew-cons b seen (o ∷ os) =
    let (there, back) = AllNew-cons b seen os in
    (
      λ (others, news). ((others.0, news.0), there (others.1, news.1)),
      λ h. let (others, news) = back h.1 in ((h.0.0, others), (h.0.1, news)),
    )

AllNew-nil : (bs : List ExpectedBoot) → AllNew [] bs
AllNew-nil [] = tt
AllNew-nil (b ∷ bs) = (tt, AllNew-nil bs)

-- The guard on one boot.
check_one :
    (updated_at_ms : ℕ) (seen : List ExpectedBoot) (b : ExpectedBoot) (rest : Bool)
    → ((if not (reference b.target)
            || not (reference b.boot_id)
            || ltb b.deadline_ms b.requested_at_ms
            || ltb updated_at_ms b.requested_at_ms
            || is_repeated b seen
          then false
          else rest)
        ≡ true)
      ↔ (IsValidBoot updated_at_ms b × All (λ o. HaveOtherNames o b) seen × (rest ≡ true))
check_one updated_at_ms seen b rest = (
  λ h. (
    (
      (reference_iff b.target).0 (ground arith),
      (reference_iff b.boot_id).0 (ground arith),
      (ground arith, ground arith),
    ),
    (is_repeated-false b seen).0 (ground arith),
    ground arith,
  ),
  λ ((target, boot_id, (in_order, known)), new, fine).
      rw
        (
          (reference_iff b.target).1 target,
          (reference_iff b.boot_id).1 boot_id,
          (is_repeated-false b seen).1 new,
          le→ltb_false b.deadline_ms b.requested_at_ms in_order,
          le→ltb_false updated_at_ms b.requested_at_ms known,
        )
        fine,
)

check_boots_seen :
    (updated_at_ms : ℕ) (seen boots : List ExpectedBoot)
    → (check_boots updated_at_ms seen boots ≡ true)
      ↔ (All (IsValidBoot updated_at_ms) boots × AllNew seen boots × DistinctNames boots)
unfolding check_boots
check_boots_seen updated_at_ms seen [] = (λ h. (tt, tt, tt), λ h. refl)
check_boots_seen updated_at_ms seen (b ∷ bs) =
    let (there, back) = check_boots_seen updated_at_ms (b ∷ seen) bs in
    let (one, all) = check_one updated_at_ms seen b (check_boots updated_at_ms (b ∷ seen) bs) in
    (
      λ h.
          let (valid, new, rest) = one h in
          let (valids, news, distinct) = there rest in
          let (others, news') = (AllNew-cons b seen bs).1 news in
          ((valid, valids), (new, news'), (others, distinct)),
      λ (valids, news, distinct). all (
        valids.0,
        news.0,
        back (valids.1, (AllNew-cons b seen bs).0 (distinct.0, news.1), distinct.1),
      ),
    )

-- The expected boots are admitted exactly when the target and the boot identifier of each have 1 to
-- 64 letters, digits, `_`, `-`, `.` and `:`, each was requested no later than its deadline and the
-- inventory's update, and no two have the same target and boot identifier.
pub check_boots_iff :
    (updated_at_ms : ℕ) (boots : List ExpectedBoot)
    → (check_boots updated_at_ms [] boots ≡ true)
      ↔ (All (IsValidBoot updated_at_ms) boots × DistinctNames boots)
check_boots_iff updated_at_ms boots =
    let (there, back) = check_boots_seen updated_at_ms [] boots in
    (
      λ h. let (valid, _, distinct) = there h in (valid, distinct),
      λ (valid, distinct). back (valid, AllNew-nil boots, distinct),
    )
