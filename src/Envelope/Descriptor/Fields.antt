-- ===== src/Envelope/Descriptor/Fields.antt =====
-- The parts of a descriptor of crates/leelo-envelope/src/lib.rs are read as they were written.
use leelo.Base.{
  ℕ, zero, suc, ◌-◌, ◌^◌, ◌≤◌, ◌<◌, ◌≡◌, refl, sym, ◌∙◌, ap, subst, List, [], ◌∷◌, ◌++◌,
  append_assoc, append-nil, length, length-append, All, ok, arith, some, bytes_eq_refl, codes,
}
use leelo.Policy.Tree.{NetworkNode, Nodes, nil, cons}
use leelo.Policy.Layout.{
  node_count, forest_nodes, leaf_list, forest_leaves, leaf_count, IsWithin, AllWithin,
}
use leelo.Policy.Compile.{Mode, network_bound, attested, ProductionPolicy, new}
use leelo.Policy.Admission.{new-ok}
use leelo.Envelope.Cbor.{Cbor, IsCbor}
use leelo.Envelope.Types.{NetworkBinding, Descriptor}
use leelo.Envelope.Node.{put_node}
use leelo.Envelope.Node.RoundTrip.{
  IsTypedNode, arr_law, fixed_bytes_law, bounded_array_law, get_node-put_node,
}
use leelo.Envelope.Descriptor.{
  mode_code, read_mode, put_networks, get_network, get_networks, get_policy, get_rest,
}

-- The arrays have their Rust types' lengths, and the integers their widths.
pub record IsTypedBinding (b : NetworkBinding) : Type 0 where
  pub id_bound : b.node_id < 256
  pub provider_size : length b.provider_id ≡ 32
  pub key_size : length b.key_id ≡ 32
  pub public_size : length b.public_key ≡ 49
  pub seed_size : length b.input_seed ≡ 32

mutual
  unfolding IsWithin

  IsWithin-more : (n : NetworkNode) (d : ℕ) → IsWithin n d → IsWithin n (suc d)
  IsWithin-more (NetworkNode.leaf i p) d w = omega (arith, w)
  IsWithin-more (NetworkNode.threshold i r ns) d w = (
    omega arith,
    subst (AllWithin ns) {x = d} {y = suc d - 1} (omega arith) (AllWithin-more ns d w),
  )

  AllWithin-more : (ns : Nodes) (d : ℕ) → (0 < d) × AllWithin ns (d - 1) → AllWithin ns d
  AllWithin-more nil d w = tt
  AllWithin-more (cons n ns) zero w = absurd (omega (arith, w.0))
  AllWithin-more (cons n ns) (suc d) w =
      let v = subst (AllWithin (cons n ns)) {x = suc d - 1} {y = d} (omega arith) w.1 in
      (
        IsWithin-more n d v.0,
        AllWithin-more ns (suc d)
            (w.0, subst (AllWithin ns) {x = d} {y = suc d - 1} (omega arith) v.1),
      )

pub IsWithin-suc : (n : NetworkNode) (d : ℕ) → IsWithin n d → IsWithin n (suc d)
IsWithin-suc = IsWithin-more

mutual
  unfolding node_count leaf_list

  leaves_few : (n : NetworkNode) → leaf_count n ≤ node_count n
  leaves_few (NetworkNode.leaf i p) = omega arith
  leaves_few (NetworkNode.threshold i r ns) = omega (arith, forest_leaves_few ns)

  forest_leaves_few : (ns : Nodes) → length (forest_leaves ns) ≤ forest_nodes ns
  forest_leaves_few nil = omega arith
  forest_leaves_few (cons n ns) =
      omega
        (arith, length-append (leaf_list n) (forest_leaves ns), leaves_few n, forest_leaves_few ns)

pub leaf_count-le : (n : NetworkNode) → leaf_count n ≤ node_count n
leaf_count-le = leaves_few

read_mode_code : (m : Mode) → read_mode (mode_code m) ≡ ok m
read_mode_code network_bound = refl
read_mode_code attested = refl

mode_code-lt : (m : Mode) → mode_code m < 256
mode_code-lt network_bound = omega arith
mode_code-lt attested = omega arith

module _ (c : Cbor) (laws : IsCbor c) where
  pub get_policy_law :
      (m : Mode) (tpm_id : ℕ) (n : NetworkNode) (p : ProductionPolicy) (rest : List ℕ)
      → new m tpm_id n ≡ ok p
      → tpm_id < 256
      → IsTypedNode n
      → get_policy c (c.put_u8 (mode_code m) ++ (c.put_u8 tpm_id ++ (put_node c n ++ rest)))
        ≡ ok (p, rest)
  unfolding get_policy
  get_policy_law m tpm_id n p rest built ht t =
      let (a, e) = (new-ok m tpm_id n p).0 built in
      rw (laws.u8_law (mode_code m) (mode_code-lt m) _) (
        rw (read_mode_code m) (
          rw (laws.u8_law tpm_id ht _) (
            rw
              (get_node-put_node c laws n rest t (IsWithin-suc n 3 a.within)
                (omega (arith, a.size)))
              (rw built refl))))

  get_network_law :
      (b : NetworkBinding) (rest : List ℕ)
      → IsTypedBinding b
      → get_network c (
          c.put_array 5
          ++ (c.put_u8 b.node_id
              ++ (c.put_bytes b.provider_id
                  ++ (c.put_bytes b.key_id
                      ++ (c.put_bytes b.public_key ++ (c.put_bytes b.input_seed ++ rest))))))
        ≡ ok (b, rest)
  unfolding get_network
  get_network_law b rest t = rw (arr_law c laws 5 (omega arith) _) (
      rw (laws.u8_law b.node_id t.id_bound _) (
        rw (fixed_bytes_law c laws b.provider_id 32 t.provider_size (omega arith) _) (
          rw (fixed_bytes_law c laws b.key_id 32 t.key_size (omega arith) _) (
            rw (fixed_bytes_law c laws b.public_key 49 t.public_size (omega arith) _)
              (rw (fixed_bytes_law c laws b.input_seed 32 t.seed_size (omega arith) rest) refl)))))

  regroup6 :
      (a b d e f g h r : List ℕ)
      → (a ++ (b ++ (d ++ (e ++ (f ++ (g ++ h)))))) ++ r
        ≡ a ++ (b ++ (d ++ (e ++ (f ++ (g ++ (h ++ r))))))
  regroup6 a b d e f g h r = simp append_assoc

  pub get_networks_law :
      (bs : List NetworkBinding) (rest : List ℕ)
      → All IsTypedBinding bs
      → get_networks c (length bs) (put_networks c bs ++ rest) ≡ ok (bs, rest)
  unfolding get_networks put_networks
  get_networks_law [] rest t = refl
  get_networks_law (b ∷ bs) rest t =
      rw
        (regroup6 (c.put_array 5) (c.put_u8 b.node_id) (c.put_bytes b.provider_id)
          (c.put_bytes b.key_id) (c.put_bytes b.public_key) (c.put_bytes b.input_seed)
          (put_networks c bs) rest)
        (rw (get_network_law b (put_networks c bs ++ rest) t.0)
          (rw (get_networks_law bs rest t.1) refl))

  str_end : (s : List ℕ) → length s < 2 ^ 64 → c.get_str (c.put_str s) ≡ some (s, [])
  str_end s h = ap c.get_str (sym (append-nil (c.put_str s))) ∙ laws.str_law s h []

  pub get_rest_law :
      (d : Descriptor)
      → All IsTypedBinding d.networks
      → length d.networks ≤ 30
      → d.tpm_pcr_mask < 2 ^ 32
      → length d.tpm_pcr_digest ≡ 32
      → get_rest c d.binding_id d.volume_uuid d.slot d.generation d.policy (
          c.put_array (length d.networks)
          ++ (put_networks c d.networks
              ++ (c.put_u32 d.tpm_pcr_mask
                  ++ (c.put_bytes d.tpm_pcr_digest ++ c.put_str (codes "luks2-slot")))))
        ≡ ok d
  unfolding get_rest
  get_rest_law d t few hm hd =
      rw (bounded_array_law c laws (length d.networks) 30 few (omega arith) _) (
        rw (get_networks_law d.networks _ t) (
          rw (laws.u32_law d.tpm_pcr_mask hm _) (
            rw (fixed_bytes_law c laws d.tpm_pcr_digest 32 hd (omega arith) _) (
              rw (str_end (codes "luks2-slot") (omega arith))
                (rw (bytes_eq_refl (codes "luks2-slot")) refl)))))
