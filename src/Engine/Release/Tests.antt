-- ===== src/Engine/Release/Tests.antt =====
-- The gate of crates/leelo-engine/src/release.rs, run.
use leelo.Base.{ℕ, ◌≤◌, ◌≡◌, ◌↔◌, refl, Bool, true, false, not, ◌||◌, List, [], ◌∷◌, ltb, bytes_eq}
use leelo.Engine.Release.{new, advance, network, tpm, release}
use leelo.Engine.Release.Order.{
  Event, network_done, tpm_done, payload_done, released, run, evidence, Permits, advance_iff,
  run_in_order, run_complete,
}

abbrev context : List ℕ
context = 1 ∷ 2 ∷ []

abbrev offered : List Event
offered =
    tpm_done context true
    ∷ network_done (1 ∷ [])
    ∷ network_done context
    ∷ tpm_done context false
    ∷ tpm_done context true
    ∷ released context true
    ∷ []

accepted_offers :
    (run (new context true) [] offered).1 ≡ tpm_done context true ∷ network_done context ∷ []
unfolding run new release bytes_eq tpm network
accepted_offers = refl

run_in_order_example :
    (phase : ℕ) × (live : Bool) × (phase ≤ 4)
    × ((ltb phase 2 || not true || live) ≡ true)
    × ((run (new context true) [] offered).1 ≡ evidence context live phase)
run_in_order_example = run_in_order context true offered

run_complete_example :
    (run (new context true) [] (
      network_done context
      ∷ tpm_done context true
      ∷ payload_done context
      ∷ released context true
      ∷ [])).1
    ≡ evidence context true 4
run_complete_example = run_complete context true true (λ h. refl)

advance_iff_example :
    (((advance (new context true) context 0 false).1 ≡ true)
      ↔ Permits (new context true) context 0 false)
    × (Permits (new context true) context 0 false
        → ((advance (new context true) context 0 false).0.phase ≡ 1)
          × ((advance (new context true) context 0 false).0.context ≡ context)
          × ((advance (new context true) context 0 false).0.require_live ≡ true))
    × (¬ Permits (new context true) context 0 false
        → advance (new context true) context 0 false ≡ (new context true, false))
unfolding new
advance_iff_example = advance_iff (new context true) context 0 false
