-- ===== src/Collector/Enrollments/Accounts.antt =====
-- What the counters of the enrollments in crates/leelo-collector/src/reconcile.rs mean.
use leelo.Base.{
  ℕ, ◌+◌, ◌≤◌, ◌≡◌, ◌⊎◌, inl, inr, refl, sym, ◌∙◌, ap, subst, List, [], ◌∷◌, ◌++◌, length,
  length-append, Bool, true, false, Option, none, some, leb, if◌then◌else◌, Result, ok, err,
  >>=-eq-ok, ok_injective, Bool-cases, All, arith,
}
use mathlib.Core.List.{Memᴰ}
use leelo.Collector.Types.{Error, Enrollment, FileIdentity}
use leelo.Collector.Enrollments.{
  Tally, empty_tally, min, older, has_file, count_unknown, settle, journal_state, enroll,
  enroll_all,
}

pub data Status : Type 0 where
  done pending awaiting unknown : Status

-- By what the journal says, and whether the boot test passed.
abbrev pub status_said : Option Bool → Bool → Status
status_said (some true) true = done
status_said (some true) false = awaiting
status_said (some false) passed = pending
status_said none passed = unknown

abbrev pub status_read :
    (List ℕ → Option Bool) → Result Error (List ℕ × FileIdentity) → Bool → Status
status_read committed (err e) passed = unknown
status_read committed (ok (bytes, identity)) passed = status_said (committed bytes) passed

abbrev pub is_status : Status → Status → Bool
is_status pending pending = true
is_status awaiting awaiting = true
is_status unknown unknown = true
is_status s s' = false

abbrev pub is_unresolved : Status → Bool
is_unresolved done = false
is_unresolved s = true

abbrev pub only_if : Bool → ℕ → List ℕ
only_if true created = created ∷ []
only_if false created = []

-- The earliest of the times, if there is one.
abbrev pub IsLeast : Option ℕ → List ℕ → Type 0
IsLeast none times = times ≡ []
IsLeast (some first) times = Memᴰ first times × All (λ t. first ≤ t) times

abbrev older_all : Option ℕ → List ℕ → Option ℕ
older_all o [] = o
older_all o (t ∷ ts) = older_all (older o t) ts

older_all-append :
    (o : Option ℕ) (ts us : List ℕ) → older_all o (ts ++ us) ≡ older_all (older_all o ts) us
older_all-append o [] us = refl
older_all-append o (t ∷ ts) us = older_all-append (older o t) ts us

older_all-some :
    (first : ℕ) (ts : List ℕ)
    → (m : ℕ) × (older_all (some first) ts ≡ some m)
      × (m ≤ first)
      × ((m ≡ first) ⊎ Memᴰ m ts)
      × All (λ t. m ≤ t) ts
unfolding older
older_all-some first [] = (first, refl, omega arith, inl refl, tt)
older_all-some first (t ∷ ts) =
    let (m, e, small, among, all) = older_all-some (min first t) ts in
    let (le_first, le_t, one) = min_law first t in
    (
      m,
      e,
      at_most small le_first,
      elim among [
        | inl is_min ↦ elim one [
          | inl is_first ↦ inl (is_min ∙ is_first)
          | inr is_t ↦ inr (Memᴰ.head (is_min ∙ is_t))
        ]
        | inr inside ↦ inr (Memᴰ.tail inside)
      ],
      (at_most small le_t, all),
    )
  where
    at_most : {a b c : ℕ} → a ≤ b → b ≤ c → a ≤ c
    at_most h k = omega arith

    min_law : (a b : ℕ) → (min a b ≤ a) × (min a b ≤ b) × ((min a b ≡ a) ⊎ (min a b ≡ b))
    min_law a b = elim (Bool-cases (leb a b)) [
      | inl first_le ↦ rw first_le (omega arith, ground arith, inl refl)
      | inr second_lt ↦ rw second_lt (ground arith, omega arith, inr refl)
    ]

older_all-IsLeast : (ts : List ℕ) → IsLeast (older_all none ts) ts
unfolding older
older_all-IsLeast [] = refl
older_all-IsLeast (t ∷ ts) =
    let (m, e, small, among, all) = older_all-some t ts in
    rw e (
      elim among [ inl is_first ↦ Memᴰ.head is_first | inr inside ↦ Memᴰ.tail inside ],
      (small, all),
    )

-- The counters and the times of `after` are those of `before` with these more times.
abbrev Extends : List ℕ → List ℕ → List ℕ → List ℕ → Tally → Tally → Type 0
Extends pendings awaitings unknowns all before after =
    (after.pending ≡ before.pending + length pendings)
    × (after.awaiting_boot_test ≡ before.awaiting_boot_test + length awaitings)
    × (after.unknown ≡ before.unknown + length unknowns)
    × (after.oldest_pending ≡ older_all before.oldest_pending pendings)
    × (after.oldest_awaiting ≡ older_all before.oldest_awaiting awaitings)
    × (after.oldest_unknown ≡ older_all before.oldest_unknown unknowns)
    × (after.oldest ≡ older_all before.oldest all)

older_more :
    (a : Option ℕ) {b c : Option ℕ} (ts us : List ℕ)
    → b ≡ older_all a ts
    → c ≡ older_all b us
    → c ≡ older_all a (ts ++ us)
older_more a ts us h k = k ∙ (ap (λ o. older_all o us) h ∙ sym (older_all-append a ts us))

Extends-append :
    (ps ps' ws ws' us us' os os' : List ℕ) (t₁ t₂ t₃ : Tally)
    → Extends ps ws us os t₁ t₂
    → Extends ps' ws' us' os' t₂ t₃
    → Extends (ps ++ ps') (ws ++ ws') (us ++ us') (os ++ os') t₁ t₃
Extends-append ps ps' ws ws' us us' os os' t₁ t₂ t₃ (a, b, c, d, e, f, g)
      (a', b', c', d', e', f', g') =
    (
      omega (arith, a, a', length-append ps ps'),
      omega (arith, b, b', length-append ws ws'),
      omega (arith, c, c', length-append us us'),
      older_more t₁.oldest_pending ps ps' d d',
      older_more t₁.oldest_awaiting ws ws' e e',
      older_more t₁.oldest_unknown us us' f f',
      older_more t₁.oldest os os' g g',
    )

-- What an enrollment of a status adds.
abbrev Adds : Status → ℕ → Tally → Tally → Type 0
Adds s created before after =
    Extends (only_if (is_status pending s) created) (only_if (is_status awaiting s) created)
      (only_if (is_status unknown s) created) (only_if (is_unresolved s) created) before after

count_unknown-Adds : (created : ℕ) (t : Tally) → Adds unknown created t (count_unknown created t)
unfolding count_unknown
count_unknown-Adds created t = (omega arith, omega arith, omega arith, refl, refl, refl, refl)

settle-Adds :
    (said : Option Bool) (passed : Bool) (created : ℕ) (t : Tally)
    → Adds (status_said said passed) created t (settle said passed created t)
unfolding settle
settle-Adds (some true) true created t =
    (omega arith, omega arith, omega arith, refl, refl, refl, refl)
settle-Adds (some true) false created t =
    (omega arith, omega arith, omega arith, refl, refl, refl, refl)
settle-Adds (some false) passed created t =
    (omega arith, omega arith, omega arith, refl, refl, refl, refl)
settle-Adds none passed created t = count_unknown-Adds created t

-- A result that is `ok` is not the error of the guard before it.
unless {ℓ} :
    {A : Type ℓ} (refused : Bool) (e : Error) (r : Result Error A) {v : A}
    → (if refused then err e else r) ≡ ok v
    → r ≡ ok v
unless true e r h = cc
unless false e r h = h

module _ (read_journal : List ℕ → Result Error (List ℕ × FileIdentity))
    (journal_committed : List ℕ → Option Bool) where
  -- What an enrollment counts as: while the inventory is not fresh, as unknown.
  abbrev pub status_of : Bool → Enrollment → Status
  status_of inventory_fresh e =
      if inventory_fresh
      then status_read journal_committed (read_journal e.journal) e.production_boot_test_passed
      else unknown

  -- When the enrollments of a status were created, and those of every status but `done`.
  abbrev pub created_with : Bool → Status → List Enrollment → List ℕ
  created_with inventory_fresh s [] = []
  created_with inventory_fresh s (e ∷ es) =
      only_if (is_status s (status_of inventory_fresh e)) e.created_at_ms
      ++ created_with inventory_fresh s es

  abbrev pub created_unresolved : Bool → List Enrollment → List ℕ
  created_unresolved inventory_fresh [] = []
  created_unresolved inventory_fresh (e ∷ es) =
      only_if (is_unresolved (status_of inventory_fresh e)) e.created_at_ms
      ++ created_unresolved inventory_fresh es

  read-Adds :
      (e : Enrollment) (read : Result Error (List ℕ × FileIdentity)) (t : Tally)
      {said : Option Bool} {t₁ : Tally}
      → journal_state read_journal journal_committed read t ≡ ok (said, t₁)
      → Adds
          (status_read journal_committed read e.production_boot_test_passed)
          e.created_at_ms
          t
          (settle said e.production_boot_test_passed e.created_at_ms t₁)
  unfolding journal_state
  read-Adds e (err _) t h =
      subst
        (λ (p : Option Bool × Tally).
          Adds unknown e.created_at_ms t
            (settle p.0 e.production_boot_test_passed e.created_at_ms p.1))
        (ok_injective h) (settle-Adds none e.production_boot_test_passed e.created_at_ms t)
  read-Adds e (ok (bytes, identity)) t h =
      let said = journal_committed bytes in
      subst
        (λ (p : Option Bool × Tally).
          Adds (status_said said e.production_boot_test_passed) e.created_at_ms t
            (settle p.0 e.production_boot_test_passed e.created_at_ms p.1))
        (ok_injective (unless (has_file identity t.journal_files) _ _ h))
        (settle-Adds said e.production_boot_test_passed e.created_at_ms
          (record t { journal_files = identity ∷ t.journal_files }))

  enroll-Adds :
      (updated_at_ms now : ℕ) (inventory_fresh : Bool) (e : Enrollment) (t t' : Tally)
      → enroll read_journal journal_committed updated_at_ms now inventory_fresh e t ≡ ok t'
      → Adds (status_of inventory_fresh e) e.created_at_ms t t'
  unfolding enroll
  enroll-Adds updated_at_ms now false e t t' h =
      subst (λ x. Adds unknown e.created_at_ms t x) (ok_injective (unless _ _ _ h))
        (count_unknown-Adds e.created_at_ms (record t { journals = e.journal ∷ t.journals }))
  enroll-Adds updated_at_ms now true e t t' h =
      let known = record t { journals = e.journal ∷ t.journals } in
      let ((said, t₁), read, settled) =
        >>=-eq-ok (journal_state read_journal journal_committed (read_journal e.journal) known) _
          (unless _ _ _ h) in
      subst (λ x. Adds (status_of true e) e.created_at_ms t x) (ok_injective settled)
        (read-Adds e (read_journal e.journal) known read)

  enroll_all-Extends :
      (updated_at_ms now : ℕ) (fresh : Bool) (es : List Enrollment) (t t' : Tally)
      → enroll_all read_journal journal_committed updated_at_ms now fresh es t ≡ ok t'
      → Extends
          (created_with fresh pending es)
          (created_with fresh awaiting es)
          (created_with fresh unknown es)
          (created_unresolved fresh es)
          t
          t'
  unfolding enroll_all
  enroll_all-Extends updated_at_ms now fresh [] t t' h =
      subst (λ x. Extends [] [] [] [] t x) (ok_injective h)
        (omega arith, omega arith, omega arith, refl, refl, refl, refl)
  enroll_all-Extends updated_at_ms now fresh (e ∷ es) t t' h =
      let (t₁, first, rest) =
        >>=-eq-ok (enroll read_journal journal_committed updated_at_ms now fresh e t) _ h in
      Extends-append _ _ _ _ _ _ (only_if (is_unresolved (status_of fresh e)) e.created_at_ms)
        (created_unresolved fresh es) t t₁ t' (enroll-Adds updated_at_ms now fresh e t t₁ first)
        (enroll_all-Extends updated_at_ms now fresh es t₁ t' rest)

  -- When the whole list of enrollments is accepted, the counters are the numbers of enrollments
  -- that are pending, waiting for a boot test, or unknown, each reported time is the earliest
  -- creation among those of its kind, and `oldest` the earliest among all three kinds.
  pub enroll_all_lem :
      (updated_at_ms now : ℕ) (fresh : Bool) (es : List Enrollment) (t : Tally)
      → enroll_all read_journal journal_committed updated_at_ms now fresh es empty_tally ≡ ok t
      → (t.pending ≡ length (created_with fresh pending es))
        × (t.awaiting_boot_test ≡ length (created_with fresh awaiting es))
        × (t.unknown ≡ length (created_with fresh unknown es))
        × IsLeast t.oldest_pending (created_with fresh pending es)
        × IsLeast t.oldest_awaiting (created_with fresh awaiting es)
        × IsLeast t.oldest_unknown (created_with fresh unknown es)
        × IsLeast t.oldest (created_unresolved fresh es)
  enroll_all_lem updated_at_ms now fresh es t h =
      let (a, b, c, d, e, f, g) = enroll_all-Extends updated_at_ms now fresh es empty_tally t h in
      (
        omega (arith, a),
        omega (arith, b),
        omega (arith, c),
        least (created_with fresh pending es) d,
        least (created_with fresh awaiting es) e,
        least (created_with fresh unknown es) f,
        least (created_unresolved fresh es) g,
      )
    where
      least : (ts : List ℕ) {o : Option ℕ} → o ≡ older_all none ts → IsLeast o ts
      least ts h = subst (λ o. IsLeast o ts) (sym h) (older_all-IsLeast ts)
