-- ===== src/Sss/Interpolation.antt =====
-- crates/leelo-sss/src/interpolation.rs: evaluation, Lagrange weights and the weighted sum, each
-- loop with the variables that it changes.
use leelo.Base.{ℕ, ◌+◌, ◌==◌, ◌≡◌, refl, if◌then◌else◌, List, [], ◌∷◌}
use leelo.Sss.Gf256.{mul, inverse_nonzero, xtime, masked, ◌⊕◌}

-- The value of the loop when it reaches the first of `coefficients`: it runs from the last one.
unfoldable pub evaluate_tail : List ℕ → ℕ → ℕ
evaluate_tail [] x = 0
evaluate_tail (coefficient ∷ coefficients) x = mul (evaluate_tail coefficients x) x ⊕ coefficient

unfoldable pub evaluate : ℕ → List ℕ → ℕ → ℕ
unfolding evaluate_tail
evaluate secret coefficients x = mul (evaluate_tail coefficients x) x ⊕ secret

-- The inner loop of `weights` over `j`, with the product of `top` and the inverse at its end.
unfoldable pub weight_loop : ℕ → ℕ → ℕ → ℕ → List ℕ → ℕ → ℕ → ℕ
weight_loop target selected i j [] top bottom = mul top (inverse_nonzero bottom)
weight_loop target selected i j (index ∷ indices) top bottom =
    weight_loop target selected i (j + 1) indices (if i == j then top else mul top (target ⊕ index))
      (if i == j then bottom else mul bottom (selected ⊕ index))

-- The outer loop over `i`, at the rest of the indices.
unfoldable pub weights_loop : List ℕ → ℕ → ℕ → List ℕ → List ℕ
unfolding weight_loop
weights_loop all target i [] = []
weights_loop all target i (index ∷ indices) =
    weight_loop target index i 0 all 1 1 ∷ weights_loop all target (i + 1) indices

unfoldable pub weights : List ℕ → ℕ → List ℕ
unfolding weights_loop
weights indices target = weights_loop indices target 0 indices

-- The loop of `weighted_sum`, which the source calls with two lists of one length.
unfoldable pub weighted_loop : List ℕ → List ℕ → ℕ → ℕ
weighted_loop (value ∷ values) (weight ∷ weights) result =
    weighted_loop values weights (result ⊕ mul value weight)
weighted_loop [] _ result = result
weighted_loop (value ∷ values) [] result = result

unfoldable pub weighted_sum : List ℕ → List ℕ → ℕ
unfolding weighted_loop
weighted_sum values weights = weighted_loop values weights 0

-- The weights of the two nodes 1 and 2 at 0, as the source's own proof has them.
mandatory_root_weights : weights (1 ∷ 2 ∷ []) 0 ≡ 0xf7 ∷ 0xf6 ∷ []
unfolding weights mul inverse_nonzero xtime masked
mandatory_root_weights = refl
