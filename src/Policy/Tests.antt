-- ===== src/Policy/Tests.antt =====
-- One policy of crates/leelo-policy, run: two leaves of which one is required.
use leelo.Base.{◌≡◌, refl, true, false, List, [], ◌∷◌, ok, err, ◌↔◌}
use leelo.Policy.Tree.{NetworkNode, nil, cons}
use leelo.Policy.Verified.{evaluate_network, record_response}
use leelo.Policy.Check.{check_compilation}
use leelo.Policy.Layout.{leaf_list, layout, source_value, roots, node_count}
use leelo.Policy.Semantics.{evaluate_network-layout}
use leelo.Policy.Admitted.{IsPlan, check_compilation_iff}
use leelo.Policy.Compile.{attested, ProductionPolicy, invalid_compilation, new}
use leelo.Policy.Admissible.{DistinctIds, IsAdmissible}
use leelo.Policy.Admission.{policy_of, new_iff}
use leelo.Policy.Responses.{position, respond, responses, network_satisfied}
use leelo.Policy.Satisfied.{answered, satisfied, leaf_ids}
use leelo.Policy.Answers.{respond-answered}
use leelo.Policy.Runs.{AllKnown, responses_iff}
use leelo.Policy.Decision.{network_satisfied_iff}
use leelo.Policy.Session.{
  start, release, authenticate_root, accept_network, confirm_live_authorization, confirm_tpm,
  authenticate_envelope,
}
use leelo.Policy.Session.Calls.{Call, envelope, tpm, live, root, finish, network, run, happened}
use leelo.Policy.Session.Safety.{HasShownAll, release-HasShownAll, run_after_release}

abbrev tree : NetworkNode
tree =
    NetworkNode.threshold 2 1
      (cons (NetworkNode.leaf 3 (7 ∷ [])) (cons (NetworkNode.leaf 4 (8 ∷ [])) nil))

abbrev policy : ProductionPolicy
policy = policy_of attested 1 tree

admitted : new attested 1 tree ≡ ok policy
unfolding new layout leaf_list roots node_count
admitted = refl

-- All factors, the live authorization before the network, and a response given twice.
abbrev calls : List Call
calls =
    tpm
    ∷ envelope
    ∷ finish
    ∷ tpm
    ∷ live
    ∷ root
    ∷ network 4
    ∷ network 4
    ∷ network 9
    ∷ finish
    ∷ root
    ∷ finish
    ∷ finish
    ∷ []

released : happened finish (run (start policy) [] calls).1 ≡ true
unfolding run start layout leaf_list release authenticate_root accept_network
    confirm_live_authorization confirm_tpm authenticate_envelope position record_response
    evaluate_network roots node_count
released = refl

session_log :
    (run (start policy) [] calls).1 ≡ finish ∷ root ∷ network 4 ∷ live ∷ tpm ∷ envelope ∷ []
unfolding run start layout leaf_list release authenticate_root accept_network
    confirm_live_authorization confirm_tpm authenticate_envelope position record_response
    evaluate_network roots node_count
session_log = refl

release-HasShownAll_example : HasShownAll attested tree (run (start policy) [] calls).1
release-HasShownAll_example = release-HasShownAll attested 1 tree policy calls admitted released

run_after_release_example :
    run (run (start policy) [] calls).0 (run (start policy) [] calls).1 (envelope ∷ network 3 ∷ [])
    ≡ run (start policy) [] calls
run_after_release_example = run_after_release policy calls (envelope ∷ network 3 ∷ []) released

network_satisfied_iff_example :
    (network_satisfied policy (4 ∷ []) ≡ ok true)
    ↔ (DistinctIds (4 ∷ []) × AllKnown (leaf_list tree) (4 ∷ []) × (true ≡ satisfied tree (4 ∷ [])))
network_satisfied_iff_example = network_satisfied_iff attested 1 tree policy (4 ∷ []) true admitted

new_iff_example :
    ((p : ProductionPolicy)
      → (new attested 1 tree ≡ ok p) ↔ (IsAdmissible 1 tree × (p ≡ policy_of attested 1 tree)))
    × (¬ (new attested 1 tree ≡ err invalid_compilation))
new_iff_example = new_iff attested 1 tree

check_compilation_iff_example :
    (check_compilation tree (layout tree 0 0) (leaf_list tree) ≡ true)
    ↔ IsPlan tree (layout tree 0 0) (leaf_list tree)
check_compilation_iff_example = check_compilation_iff tree (layout tree 0 0) (leaf_list tree)

evaluate_network-layout_example :
    evaluate_network (layout tree 0 0) (false ∷ true ∷ []) ≡ source_value tree (false ∷ true ∷ []) 0
evaluate_network-layout_example = evaluate_network-layout tree (false ∷ true ∷ [])

distinct_leaves : DistinctIds (3 ∷ 4 ∷ [])
distinct_leaves = (refl, (refl, tt))

respond-answered_example :
    respond ((3, 7 ∷ []) ∷ (4, 8 ∷ []) ∷ []) 4 (answered (3 ∷ []) ((3, 7 ∷ []) ∷ (4, 8 ∷ []) ∷ []))
    ≡ ok (true ∷ true ∷ [])
respond-answered_example =
    respond-answered 4 (3 ∷ []) ((3, 7 ∷ []) ∷ (4, 8 ∷ []) ∷ []) distinct_leaves

laid_out_distinct : DistinctIds (leaf_ids policy.plan.leaves)
unfolding leaf_list
laid_out_distinct = distinct_leaves

responses_iff_example : (responses policy.plan (4 ∷ []) ≡ ok (false ∷ true ∷ [])) ↔ (
    DistinctIds (4 ∷ [])
    × AllKnown policy.plan.leaves (4 ∷ [])
    × ((false ∷ true ∷ []) ≡ answered (4 ∷ []) policy.plan.leaves))
responses_iff_example = responses_iff policy (4 ∷ []) (false ∷ true ∷ []) laid_out_distinct
