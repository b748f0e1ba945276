-- ===== src/Cluster/State/Leader.antt =====
-- cluster/manager.py: `elect_leader` elects the lowest id among the online nodes.
use pico_dome.Base.{
  String, Option, none, some, Bool, true, false, List, [], ◌∷◌, ◌≡◌, refl, sym, ◌⊎◌, inl, inr,
  arith, Memᴰ, Bool-cases, Option-cases, filter, mem-filter, mem_of_mem-filter,
}
use pico_dome.Base.Text.{str_leb, str_leb_refl, str_leb_total, str_leb_trans, str_leb_antisymm}
use pico_dome.Base.Sort.{sort_by, sort_by-head_least, mem-sort_by}
use pico_dome.Cluster.Node.{is_online, ClusterNode}
use pico_dome.Cluster.Backend.{StateBackend}
use pico_dome.Cluster.State.{id_leb, list_online_nodes, elect_leader}
use pico_dome.Cluster.State.Assign.{NoneOnline}

id_leb_total : (m n : ClusterNode) → id_leb m n ≡ false → id_leb n m ≡ true
unfolding id_leb
id_leb_total m n = str_leb_total m.node_id n.node_id

id_leb_trans : (m n k : ClusterNode) → id_leb m n ≡ true → id_leb n k ≡ true → id_leb m k ≡ true
unfolding id_leb
id_leb_trans m n k = str_leb_trans m.node_id n.node_id k.node_id

leb_of_id_leb : (m k : ClusterNode) → id_leb m k ≡ true → str_leb m.node_id k.node_id ≡ true
unfolding id_leb
leb_of_id_leb m k q = q

module _ {S : Type 0} (b : StateBackend S) where
  open b use {
    load_node, load_all_nodes, IsStore, load_node_of_mem, mem-load_all_nodes, get_leader_id,
    set_leader_id, get_leader_id-set_leader_id, load_node-set_leader_id, load_scan,
    load_scan-set_leader_id,
  }

  -- `l` is the id of an online node, and no id of an online node is smaller.
  pub record IsLowestOnline (s : S) (l : String) : Type 0 where
    pub node : ClusterNode
    pub found : load_node l s ≡ some node
    pub is_on : is_online node.status ≡ true
    pub lowest :
        (m : ClusterNode)
        → load_node m.node_id s ≡ some m
        → is_online m.status ≡ true
        → str_leb l m.node_id ≡ true

  pub list_online_nodes_cases :
      (s : S)
      → IsStore s
      → (list_online_nodes b s ≡ []) × NoneOnline b s
        ⊎ ((n : ClusterNode) × (t : List ClusterNode) × (list_online_nodes b s ≡ n ∷ t)
            × IsLowestOnline s n.node_id)
  unfolding list_online_nodes
  list_online_nodes_cases s h = go (sort_by id_leb nodes) refl
    where
      nodes : List ClusterNode
      nodes = filter (λ n. is_online n.status) (load_all_nodes s)

      listed :
          (i : String) (m : ClusterNode)
          → load_node i s ≡ some m
          → is_online m.status ≡ true
          → Memᴰ m nodes
      listed i m e o =
          mem-filter (λ n. is_online n.status) (load_all_nodes s) (mem-load_all_nodes i m s e) o

      go :
          (l : List ClusterNode)
          → sort_by id_leb nodes ≡ l
          → (l ≡ []) × NoneOnline b s
            ⊎ ((n : ClusterNode) × (t : List ClusterNode) × (l ≡ n ∷ t)
                × IsLowestOnline s n.node_id)
      go [] e = inl (
        refl,
        λ i m k. elim (Bool-cases (is_online m.status)) [
          | inl o ↦ elim (rw e at (mem-sort_by id_leb nodes (listed i m k o))) [ ]
          | inr o ↦ o
        ],
      )
      go (n ∷ t) e =
          let (mem, least) = sort_by-head_least id_leb id_leb_total id_leb_trans nodes e in
          let (known, on) = mem_of_mem-filter (λ n. is_online n.status) (load_all_nodes s) mem in
          inr (
            n,
            t,
            refl,
            record {
              node = n;
              found = load_node_of_mem n s h known;
              is_on = on;
              lowest = λ m k o. elim (least m (listed m.node_id m k o)) [
                | inl q ↦ rw q (str_leb_refl n.node_id)
                | inr q ↦ leb_of_id_leb n m q
              ];
            },
          )

  -- Either no node is online, and electing returns `None` and leaves the leader as it was, or the
  -- lowest id of an online node is returned and stored as the leader.
  pub elect_leader_lowest :
      (s : S)
      → IsStore s
      → (elect_leader b s ≡ (s, none)) × NoneOnline b s
        ⊎ ((l : String) × (elect_leader b s ≡ (set_leader_id l s, some l))
            × (get_leader_id (elect_leader b s).0 ≡ some l)
            × IsLowestOnline s l)
  unfolding elect_leader
  elect_leader_lowest s h = elim (list_online_nodes_cases s h) [
    | inl (e, off) ↦ inl (ground arith, off)
    | inr (n, t, e, low) ↦ inr (
      n.node_id,
      ground arith,
      rw (e, elect_leader) (get_leader_id-set_leader_id n.node_id s),
      low,
    )
  ]

abbrev pub on_of : Option ClusterNode → Bool
on_of none = false
on_of (some n) = is_online n.status

module _ {S T : Type 0} (b : StateBackend S) (c : StateBackend T) (s : S) (t : T) (hs : b.IsStore s)
    (ht : c.IsStore t)
    (same : (i : String) → on_of (b.load_node i s) ≡ on_of (c.load_node i t)) where
  leader_le : (l k : String) → IsLowestOnline b s l → IsLowestOnline c t k → str_leb l k ≡ true
  leader_le l k low_s low_t =
      let key = c.load_node_id k low_t.node t ht low_t.found in
      elim (Option-cases (b.load_node k s)) [
        | inl e ↦ ground (arith, same k, low_t.found, low_t.is_on)
        | inr (m, e) ↦
            let mine = b.load_node_id k m s hs e in
            let below = low_s.lowest m (cc) (ground (arith, same k, low_t.found, low_t.is_on)) in
            rw mine at below
      ]

  none_means_none : NoneOnline b s → (k : String) → IsLowestOnline c t k → ⊥
  none_means_none off k low = elim (Option-cases (b.load_node k s)) [
    | inl e ↦ ground (arith, same k, low.found, low.is_on)
    | inr (m, e) ↦ ground (arith, same k, low.found, low.is_on, off k m e)
  ]

-- Two stores, also of different backends, in which the same ids are online elect the same leader.
pub elect_leader_same :
    {S T : Type 0} (b : StateBackend S) (c : StateBackend T) (s : S) (t : T)
    → b.IsStore s
    → c.IsStore t
    → ((i : String) → on_of (b.load_node i s) ≡ on_of (c.load_node i t))
    → (elect_leader b s).1 ≡ (elect_leader c t).1
elect_leader_same b c s t hs ht same = elim (elect_leader_lowest b s hs) [
  | inl (e, off) ↦ elim (elect_leader_lowest c t ht) [
    | inl (f, _) ↦ cc
    | inr (k, _, _, low) ↦ absurd (none_means_none b c s t hs ht same off k low)
  ]
  | inr (l, e, _, low) ↦ elim (elect_leader_lowest c t ht) [
    | inl (f, off) ↦ absurd (none_means_none c b t s ht hs (λ i. sym (same i)) off l low)
    | inr (k, f, _, low') ↦
        let le = leader_le b c s t hs ht same l k low low' in
        let ge = leader_le c b t s ht hs (λ i. sym (same i)) k l low' low in
        let eq = str_leb_antisymm l k le ge in cc
  ]
]
