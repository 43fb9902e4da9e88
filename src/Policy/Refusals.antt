-- ===== src/Policy/Refusals.antt =====
-- The errors that the compiler of crates/leelo-policy/src/lib.rs gives by itself.
use leelo.Base.{
  refl, Bool, true, false, ℕ, ◌+◌, ◌≡◌, List, ltb, ◌==◌, ◌||◌, not, guard, ok, err, Result, ◌>>=◌,
  arith,
}
use leelo.Policy.Tree.{NetworkNode, Nodes, nil, cons, count_nodes}
use leelo.Policy.Compile.{
  Build, PolicyError, enter_node, compile_leaf, compile_node, compile_children, invalid_threshold,
  invalid_compilation,
}

-- An error that is not the certificate's.
abbrev pub IsCompilers {ℓ} : {A : Type ℓ} → Result PolicyError A → Type ℓ
IsCompilers r = ¬ (r ≡ err invalid_compilation)

enter_node-IsCompilers :
    (n : NetworkNode) (depth : ℕ) (b : Build) → IsCompilers (enter_node n depth b)
unfolding enter_node
enter_node-IsCompilers n depth b h = ground arith

pub >>=-IsCompilers {ℓ κ} :
    {A : Type ℓ} {B : Type κ} (first : Result PolicyError A) (rest : A → Result PolicyError B)
    → ((v : A) → first ≡ ok v → IsCompilers (rest v))
    → ¬ (first ≡ err invalid_compilation)
    → ¬ ((first >>= rest) ≡ err invalid_compilation)
>>=-IsCompilers (ok v) rest later now h = later v refl h
>>=-IsCompilers {A} {B} (err e) rest later now h = now (again h)
  where
    again :
        ◌≡◌ {A = Result PolicyError B} (err e) (err invalid_compilation)
        → ◌≡◌ {A = Result PolicyError A} (err e) (err invalid_compilation)
    again g = cc

compile_leaf-IsCompilers : (i : ℕ) (p : List ℕ) (b : Build) → IsCompilers (compile_leaf i p b)
unfolding compile_leaf
compile_leaf-IsCompilers i p b h = ground arith

ok-IsCompilers {ℓ} : {A : Type ℓ} (v : A) → IsCompilers (ok v)
ok-IsCompilers v h = cc

threshold_guard-IsCompilers : (fine : Bool) → IsCompilers (guard fine invalid_threshold)
threshold_guard-IsCompilers true h = cc
threshold_guard-IsCompilers false h = ground arith

mutual
  unfolding compile_node compile_children

  pub compile_node-IsCompilers :
      (n : NetworkNode) (depth : ℕ) (b : Build) → IsCompilers (compile_node n depth b)
  compile_node-IsCompilers (NetworkNode.leaf i p) depth b =
      >>=-IsCompilers (enter_node (NetworkNode.leaf i p) depth b) _
        (λ b₁ _. compile_leaf-IsCompilers i p b₁)
        (enter_node-IsCompilers (NetworkNode.leaf i p) depth b)
  compile_node-IsCompilers (NetworkNode.threshold i required ns) depth b =
      >>=-IsCompilers (enter_node (NetworkNode.threshold i required ns) depth b) _
        (λ b₁ _.
          >>=-IsCompilers (guard (not (required == 0 || ltb (count_nodes ns) required)) _) _
            (λ _ _.
              >>=-IsCompilers (compile_children ns (depth + 1) b₁) _ (λ r _. ok-IsCompilers _)
                (compile_children-IsCompilers ns (depth + 1) b₁))
            (threshold_guard-IsCompilers _))
        (enter_node-IsCompilers (NetworkNode.threshold i required ns) depth b)

  compile_children-IsCompilers :
      (ns : Nodes) (depth : ℕ) (b : Build) → IsCompilers (compile_children ns depth b)
  compile_children-IsCompilers nil depth b = ok-IsCompilers _
  compile_children-IsCompilers (cons n ns) depth b =
      >>=-IsCompilers (compile_node n depth b) _
        (λ r _.
          >>=-IsCompilers (compile_children ns depth r.1) _ (λ _ _. ok-IsCompilers _)
            (compile_children-IsCompilers ns depth r.1))
        (compile_node-IsCompilers n depth b)
