-- ===== src/Engine/Release.antt =====
-- crates/leelo-engine/src/release.rs: the gate that orders the evidence of one recovery.
pub mod Order
pub mod Tests
use leelo.Base.{ℕ, ◌+◌, Bool, true, false, not, ◌&&◌, ◌||◌, List, ◌==◌, bytes_eq, if◌then◌else◌}

pub record ReleaseState : Type 0 where
  pub context : List ℕ
  pub phase : ℕ
  pub require_live : Bool

unfoldable pub new : List ℕ → Bool → ReleaseState
new context require_live = record { context = context; phase = 0; require_live = require_live }

unfoldable pub matches : ReleaseState → List ℕ → Bool
matches s context = bytes_eq s.context context

unfoldable pub advance : ReleaseState → List ℕ → ℕ → Bool → ReleaseState × Bool
unfolding matches
advance s context expected live =
    if not (matches s context)
      || not (s.phase == expected)
      || (expected == 1 && s.require_live && not live)
    then (s, false)
    else (record s { phase = expected + 1 }, true)

unfoldable pub network : ReleaseState → List ℕ → ReleaseState × Bool
unfolding advance
network s context = advance s context 0 false

unfoldable pub tpm : ReleaseState → List ℕ → Bool → ReleaseState × Bool
unfolding advance
tpm s context live = advance s context 1 live

unfoldable pub payload : ReleaseState → List ℕ → ReleaseState × Bool
unfolding advance
payload s context = advance s context 2 false

unfoldable pub release : ReleaseState → List ℕ → Bool → ReleaseState × Bool
unfolding advance
release s context within_deadline =
    if not within_deadline then (s, false) else advance s context 3 false
