-- ===== src/Policy/Tree.antt =====
-- The source tree of a policy, `NetworkNode` of crates/leelo-policy/src/verified_compile.rs.
use leelo.Base.{ℕ, suc, List}

-- `Nodes` is the `Vec<NetworkNode>` of a threshold's children.
mutual
  pub data NetworkNode : Type 0 where
    leaf : ℕ → List ℕ → NetworkNode
    threshold : ℕ → ℕ → Nodes → NetworkNode

  pub data Nodes : Type 0 where
    nil : Nodes
    cons : NetworkNode → Nodes → Nodes

abbrev pub id : NetworkNode → ℕ
id (leaf i provider_id) = i
id (threshold i required children) = i

abbrev pub count_nodes : Nodes → ℕ
count_nodes nil = 0
count_nodes (cons n ns) = suc (count_nodes ns)
