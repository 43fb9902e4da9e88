-- ===== src/Policy/Decision.antt =====
-- `network_satisfied` of an admitted policy, crates/leelo-policy/src/lib.rs, end to end: from the
-- tree that was given to `ProductionPolicy::new` to the decision on a set of responses.
use leelo.Base.{ℕ, ◌≡◌, refl, sym, ◌∙◌, ap, subst, Bool, List, ok, >>=-eq-ok, ok_injective, ◌↔◌}
use leelo.Policy.Tree.{NetworkNode}
use leelo.Policy.Verified.{evaluate_network}
use leelo.Policy.Layout.{leaf_list, layout}
use leelo.Policy.Compile.{Mode, ProductionPolicy, new}
use leelo.Policy.Admissible.{DistinctIds, IsAdmissible}
use leelo.Policy.Admission.{new-ok, policy_of}
use leelo.Policy.Semantics.{evaluate_network-layout}
use leelo.Policy.Responses.{responses, network_satisfied}
use leelo.Policy.Satisfied.{satisfied, answered, source_value-satisfied}
use leelo.Policy.LeafIds.{DistinctIds-leaf_ids}
use leelo.Policy.Runs.{AllKnown, responses_iff}

-- The plan's evaluator on the answers of `available`.
pub evaluate_network-answered :
    (tpm_node_id : ℕ) (n : NetworkNode) (available : List ℕ)
    → IsAdmissible tpm_node_id n
    → evaluate_network (layout n 0 0) (answered available (leaf_list n)) ≡ satisfied n available
evaluate_network-answered tpm_node_id n available a =
    evaluate_network-layout n (answered available (leaf_list n))
    ∙ source_value-satisfied n available a.thresholds

module _ (mode : Mode) (tpm_node_id : ℕ) (n : NetworkNode) (a : IsAdmissible tpm_node_id n)
    (available : List ℕ) (b : Bool) where
  decide_sound :
      network_satisfied (policy_of mode tpm_node_id n) available ≡ ok b
      → DistinctIds available × AllKnown (leaf_list n) available × (b ≡ satisfied n available)
  unfolding network_satisfied
  decide_sound h =
      let (rs, h₁, h₂) = >>=-eq-ok (responses (policy_of mode tpm_node_id n).plan available) _ h in
      let (distinct, known, e) =
        (responses_iff (policy_of mode tpm_node_id n) available rs
            (DistinctIds-leaf_ids tpm_node_id n a)).0
          h₁ in
      (
        distinct,
        known,
        sym (ok_injective h₂)
            ∙ ap (evaluate_network (layout n 0 0)) e
            ∙ evaluate_network-answered tpm_node_id n available a,
      )

  decide_complete :
      DistinctIds available × AllKnown (leaf_list n) available × (b ≡ satisfied n available)
      → network_satisfied (policy_of mode tpm_node_id n) available ≡ ok b
  unfolding network_satisfied
  decide_complete h =
      rw
        ((responses_iff (policy_of mode tpm_node_id n) available (answered available (leaf_list n))
            (DistinctIds-leaf_ids tpm_node_id n a)).1
          (h.0, h.1, refl))
        (ap ok (evaluate_network-answered tpm_node_id n available a ∙ sym h.2))

-- On an admitted policy `network_satisfied` answers exactly when the identifiers are distinct
-- leaves of the tree, and its answer is then what the nested thresholds of the tree decide.
pub network_satisfied_iff :
    (mode : Mode) (tpm_node_id : ℕ) (n : NetworkNode) (p : ProductionPolicy) (available : List ℕ)
    (b : Bool)
    → new mode tpm_node_id n ≡ ok p
    → (network_satisfied p available ≡ ok b)
      ↔ (DistinctIds available × AllKnown (leaf_list n) available × (b ≡ satisfied n available))
network_satisfied_iff mode tpm_node_id n p available b h =
    let (a, e) = (new-ok mode tpm_node_id n p).0 h in
    subst
      (λ q.
        (network_satisfied q available ≡ ok b)
        ↔ (DistinctIds available × AllKnown (leaf_list n) available × (b ≡ satisfied n available)))
      (sym e)
      (
        decide_sound mode tpm_node_id n a available b,
        decide_complete mode tpm_node_id n a available b,
      )
