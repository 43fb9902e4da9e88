-- ===== src/Envelope/Node.antt =====
-- `put_node` and `get_node` of crates/leelo-envelope/src/lib.rs.
pub mod RoundTrip
use leelo.Base.{
  ℕ, zero, suc, ◌+◌, ◌&&◌, leb, ◌==◌, if◌then◌else◌, List, [], ◌++◌, Result, ok, err, ◌>>=◌,
}
use leelo.Policy.Tree.{NetworkNode, Nodes, nil, cons, count_nodes}
use leelo.Envelope.Cbor.{Cbor}
use leelo.Envelope.Types.{Error, malformed, too_large}
use leelo.Envelope.Read.{or_malformed, read_u8, fixed_bytes, bounded_array}

module _ (c : Cbor) where
  unfoldable mutual
    pub put_node : NetworkNode → List ℕ
    put_node (NetworkNode.leaf id provider_id) =
        c.put_array 3 ++ (c.put_u8 0 ++ (c.put_u8 id ++ c.put_bytes provider_id))
    put_node (NetworkNode.threshold id required children) =
        c.put_array 4
        ++ (c.put_u8 1
            ++ (c.put_u8 id
                ++ (c.put_u8 required
                    ++ (c.put_array (count_nodes children) ++ put_nodes children))))

    -- The loop over the children.
    pub put_nodes : Nodes → List ℕ
    put_nodes nil = []
    put_nodes (cons n ns) = put_node n ++ put_nodes ns

  -- A node with the number of nodes read so far, and the rest of the input.
  abbrev pub Got : Type 0 → Type 0
  Got A = Result Error (A × ℕ × List ℕ)

  -- The loop that reads `count` children, each by `get`.
  unfoldable pub get_children : (ℕ → List ℕ → Got NetworkNode) → ℕ → ℕ → List ℕ → Got Nodes
  get_children get zero nodes input = ok (nil, nodes, input)
  get_children get (suc count) nodes input = do
    (n, nodes', rest) ← get nodes input
    (ns, nodes'', rest') ← get_children get count nodes' rest
    ok (cons n ns, nodes'', rest')

  unfoldable pub get_leaf : ℕ → ℕ → List ℕ → Got NetworkNode
  unfolding fixed_bytes
  get_leaf id nodes input = do
    (provider_id, rest) ← fixed_bytes c 32 input
    ok (NetworkNode.leaf id provider_id, nodes, rest)

  unfoldable pub get_threshold : (ℕ → List ℕ → Got NetworkNode) → ℕ → ℕ → List ℕ → Got NetworkNode
  unfolding get_children bounded_array
  get_threshold get id nodes input = do
    (required, r₁) ← read_u8 c input
    (count, r₂) ← bounded_array c 30 r₁
    (children, nodes', r₃) ← get_children get count nodes r₂
    ok (NetworkNode.threshold id required children, nodes', r₃)

  -- The match on the length and the tag.
  unfoldable pub get_tagged :
      (ℕ → List ℕ → Got NetworkNode) → ℕ → ℕ → ℕ → ℕ → List ℕ → Got NetworkNode
  unfolding get_leaf get_threshold
  get_tagged get n tag id nodes input =
      if n == 3 && tag == 0
      then get_leaf id nodes input
      else if n == 4 && tag == 1
      then get_threshold get id nodes input
      else err malformed

  -- `levels` is 5 - `depth`: it is 0 exactly when `depth > 4`.
  unfoldable pub get_node : ℕ → ℕ → List ℕ → Got NetworkNode
  unfolding get_tagged
  get_node zero nodes input = err too_large
  get_node (suc levels) nodes input = if leb 30 nodes then err too_large else do
    (size, r₁) ← or_malformed (c.get_array input)
    n ← or_malformed size
    (tag, r₂) ← read_u8 c r₁
    (id, r₃) ← read_u8 c r₂
    get_tagged (get_node levels) n tag id (nodes + 1) r₃
