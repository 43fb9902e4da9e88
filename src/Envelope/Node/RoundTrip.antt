-- ===== src/Envelope/Node/RoundTrip.antt =====
-- `get_node` of crates/leelo-envelope/src/lib.rs reads what `put_node` writes.
use leelo.Base.{
  ℕ, zero, suc, ◌+◌, ◌-◌, ◌^◌, ◌≤◌, ◌<◌, ◌≡◌, refl, ◌∙◌, ap, subst, List, ◌++◌, append_assoc,
  length, ok, leb, false, arith, le→ltb_false, ==_refl,
}
use leelo.Policy.Tree.{NetworkNode, Nodes, nil, cons, count_nodes}
use leelo.Policy.Layout.{node_count, forest_nodes, node_count_pos, IsWithin, AllWithin}
use leelo.Envelope.Cbor.{Cbor, IsCbor}
use leelo.Envelope.Read.{arr, fixed_bytes, bounded_bytes, bounded_array}
use leelo.Envelope.Node.{
  put_node, put_nodes, get_node, get_children, get_leaf, get_threshold, get_tagged, Got,
}

-- The tree's identifiers, thresholds and providers have their Rust types.
unfoldable mutual
  pub IsTypedNode : NetworkNode → Type 0
  IsTypedNode (NetworkNode.leaf id provider_id) = (id < 256) × (length provider_id ≡ 32)
  IsTypedNode (NetworkNode.threshold id required children) =
      (id < 256) × (required < 256) × AreTypedNodes children

  pub AreTypedNodes : Nodes → Type 0
  AreTypedNodes nil = Unit
  AreTypedNodes (cons n ns) = IsTypedNode n × AreTypedNodes ns

no_level : (n : NetworkNode) → IsWithin n 0 → ⊥
unfolding IsWithin
no_level (NetworkNode.leaf id p) w = absurd (omega (arith, w))
no_level (NetworkNode.threshold id required ns) w = absurd (omega (arith, w.0))

module _ (c : Cbor) (laws : IsCbor c) where
  pub arr_law : (n : ℕ) → n < 2 ^ 64 → (rest : List ℕ) → arr c n (c.put_array n ++ rest) ≡ ok rest
  unfolding arr
  arr_law n h rest = rw (laws.array_law n h rest) (rw (==_refl n) refl)

  pub fixed_bytes_law :
      (b : List ℕ) (n : ℕ)
      → length b ≡ n
      → n < 2 ^ 64
      → (rest : List ℕ) → fixed_bytes c n (c.put_bytes b ++ rest) ≡ ok (b, rest)
  unfolding fixed_bytes
  fixed_bytes_law b n e h rest =
      rw (laws.bytes_law b (omega (arith, e)) rest) (rw e (rw (==_refl n) refl))

  pub bounded_array_law :
      (n max : ℕ)
      → n ≤ max
      → max < 2 ^ 64
      → (rest : List ℕ) → bounded_array c max (c.put_array n ++ rest) ≡ ok (n, rest)
  unfolding bounded_array
  bounded_array_law n max h small rest =
      rw (laws.array_law n (omega arith) rest) (rw (le→ltb_false max n h) refl)

  pub bounded_bytes_law :
      (b : List ℕ) (max : ℕ)
      → 0 < length b
      → length b ≤ max
      → max < 2 ^ 64
      → (rest : List ℕ) → bounded_bytes c max (c.put_bytes b ++ rest) ≡ ok (b, rest)
  unfolding bounded_bytes
  bounded_bytes_law b max pos h small rest = rw (laws.bytes_law b (omega arith) rest) (ground arith)

  get_leaf_law :
      (id nodes : ℕ) (p : List ℕ)
      → length p ≡ 32
      → (rest : List ℕ)
      → get_leaf c id nodes (c.put_bytes p ++ rest) ≡ ok (NetworkNode.leaf id p, nodes, rest)
  unfolding get_leaf
  get_leaf_law id nodes p e rest = rw (fixed_bytes_law p 32 e (omega arith) rest) refl

  get_node_step :
      (levels nodes size tag id : ℕ) (input : List ℕ)
      → nodes < 30
      → size < 2 ^ 64
      → tag < 256
      → id < 256
      → get_node c (suc levels) nodes (c.put_array size ++ (c.put_u8 tag ++ (c.put_u8 id ++ input)))
        ≡ get_tagged c (get_node c levels) size tag id (nodes + 1) input
  unfolding get_node
  get_node_step levels nodes size tag id input room hs ht hi =
      let few : leb 30 nodes ≡ false = ground arith in
      rw few
        (rw (laws.array_law size hs _) (rw (laws.u8_law tag ht _) (rw (laws.u8_law id hi _) refl)))

  get_threshold_law :
      (get : ℕ → List ℕ → Got c NetworkNode) (id required nodes nodes' : ℕ) (ns : Nodes)
      (rest : List ℕ)
      → required < 256
      → count_nodes ns ≤ 30
      → get_children c get (count_nodes ns) nodes (put_nodes c ns ++ rest) ≡ ok (ns, nodes', rest)
      → get_threshold c get id nodes
          (c.put_u8 required ++ (c.put_array (count_nodes ns) ++ (put_nodes c ns ++ rest)))
        ≡ ok (NetworkNode.threshold id required ns, nodes', rest)
  unfolding get_threshold
  get_threshold_law get id required nodes nodes' ns rest h few e = rw (laws.u8_law required h _) (
      rw (bounded_array_law (count_nodes ns) 30 few (omega arith) (put_nodes c ns ++ rest))
        (rw e refl))

  get_children_step :
      (get : ℕ → List ℕ → Got c NetworkNode) (count nodes nodes' nodes'' : ℕ) (n : NetworkNode)
      (ns : Nodes) (input middle rest : List ℕ)
      → get nodes input ≡ ok (n, nodes', middle)
      → get_children c get count nodes' middle ≡ ok (ns, nodes'', rest)
      → get_children c get (suc count) nodes input ≡ ok (cons n ns, nodes'', rest)
  unfolding get_children
  get_children_step get count nodes nodes' nodes'' n ns input middle rest e e' = rw e (rw e' refl)

  assoc4 : (a b d e r : List ℕ) → (a ++ (b ++ (d ++ e))) ++ r ≡ a ++ (b ++ (d ++ (e ++ r)))
  assoc4 a b d e r = simp append_assoc

  assoc6 :
      (a b d e f g r : List ℕ)
      → (a ++ (b ++ (d ++ (e ++ (f ++ g))))) ++ r ≡ a ++ (b ++ (d ++ (e ++ (f ++ (g ++ r)))))
  assoc6 a b d e f g r = simp append_assoc

  count_nodes-le : (ns : Nodes) → count_nodes ns ≤ forest_nodes ns
  unfolding node_count
  count_nodes-le nil = omega arith
  count_nodes-le (cons n ns) = omega (arith, count_nodes-le ns, node_count_pos n)

  get_tagged_leaf :
      (get : ℕ → List ℕ → Got c NetworkNode) (id nodes : ℕ) (input : List ℕ)
      → get_tagged c get 3 0 id nodes input ≡ get_leaf c id nodes input
  unfolding get_tagged
  get_tagged_leaf get id nodes input = refl

  get_tagged_threshold :
      (get : ℕ → List ℕ → Got c NetworkNode) (id nodes : ℕ) (input : List ℕ)
      → get_tagged c get 4 1 id nodes input ≡ get_threshold c get id nodes input
  unfolding get_tagged
  get_tagged_threshold get id nodes input = refl

  get_children_nil :
      (get : ℕ → List ℕ → Got c NetworkNode) (nodes nodes' : ℕ) (rest : List ℕ)
      → nodes ≡ nodes'
      → get_children c get 0 nodes rest ≡ ok (nil, nodes', rest)
  unfolding get_children
  get_children_nil get nodes nodes' rest e = ap (λ k. ok (nil, k, rest)) e

  mutual
    unfolding put_node IsTypedNode IsWithin node_count

    read_node :
        (n : NetworkNode) (levels nodes : ℕ) (rest : List ℕ)
        → IsTypedNode n
        → IsWithin n levels
        → nodes + node_count n ≤ 30
        → get_node c levels nodes (put_node c n ++ rest) ≡ ok (n, nodes + node_count n, rest)
    read_node n zero nodes rest t w h = absurd (no_level n w)
    read_node (NetworkNode.leaf id p) (suc levels) nodes rest t w h =
        ap (get_node c (suc levels) nodes)
          (assoc4 (c.put_array 3) (c.put_u8 0) (c.put_u8 id) (c.put_bytes p) rest)
        ∙ get_node_step levels nodes 3 0 id (c.put_bytes p ++ rest) (omega arith) (omega arith)
            (omega arith) t.0
        ∙ get_tagged_leaf (get_node c levels) id (nodes + 1) (c.put_bytes p ++ rest)
        ∙ get_leaf_law id (nodes + 1) p t.1 rest
    read_node (NetworkNode.threshold id required ns) (suc levels) nodes rest t w h =
        ap (get_node c (suc levels) nodes) (
          assoc6 (c.put_array 4) (c.put_u8 1) (c.put_u8 id) (c.put_u8 required)
            (c.put_array (count_nodes ns)) (put_nodes c ns) rest)
        ∙ get_node_step levels nodes 4 1 id
            (c.put_u8 required ++ (c.put_array (count_nodes ns) ++ (put_nodes c ns ++ rest)))
            (omega arith) (omega arith) (omega arith) t.0
        ∙ get_tagged_threshold (get_node c levels) id (nodes + 1)
            (c.put_u8 required ++ (c.put_array (count_nodes ns) ++ (put_nodes c ns ++ rest)))
        ∙ get_threshold_law (get_node c levels) id required (nodes + 1)
            (nodes + suc (forest_nodes ns)) ns rest t.1 (omega (arith, h, count_nodes-le ns))
            (read_nodes ns levels (nodes + 1) rest t.2
                (subst (AllWithin ns) {x = suc levels - 1} {y = levels} (omega arith) w.1)
                (omega (arith, h))
              ∙ ap (λ k. ok (ns, k, rest)) (omega arith))

    read_nodes :
        (ns : Nodes) (levels nodes : ℕ) (rest : List ℕ)
        → AreTypedNodes ns
        → AllWithin ns levels
        → nodes + forest_nodes ns ≤ 30
        → get_children c (get_node c levels) (count_nodes ns) nodes (put_nodes c ns ++ rest)
          ≡ ok (ns, nodes + forest_nodes ns, rest)
    read_nodes nil levels nodes rest t w h =
        get_children_nil (get_node c levels) nodes (nodes + 0) rest (omega arith)
    read_nodes (cons n ns) levels nodes rest t w h =
        ap (get_children c (get_node c levels) (suc (count_nodes ns)) nodes)
          (append_assoc (put_node c n) (put_nodes c ns) rest)
        ∙ get_children_step (get_node c levels) (count_nodes ns) nodes (nodes + node_count n)
            (nodes + node_count n + forest_nodes ns) n ns (put_node c n ++ (put_nodes c ns ++ rest))
            (put_nodes c ns ++ rest) rest
            (read_node n levels nodes (put_nodes c ns ++ rest) t.0 w.0 (omega (arith, h)))
            (read_nodes ns levels (nodes + node_count n) rest t.1 w.1 (omega (arith, h)))
        ∙ ap (λ k. ok (cons n ns, k, rest)) (omega arith)

  -- What `put_node` writes for a tree of at most four levels and 30 nodes is read back, whatever
  -- follows it.
  pub get_node-put_node :
      (n : NetworkNode) (rest : List ℕ)
      → IsTypedNode n
      → IsWithin n 4
      → node_count n ≤ 30
      → get_node c 4 0 (put_node c n ++ rest) ≡ ok (n, node_count n, rest)
  get_node-put_node n rest t w h =
      read_node n 4 0 rest t w (omega (arith, h)) ∙ ap (λ k. ok (n, k, rest)) (omega arith)
