-- ===== src/Cluster/State/Assign.antt =====
-- cluster/manager.py: which node `assign_scan` chooses, and what it and its inverses write.
use pico_dome.Base.{
  ◌+◌, String, Option, none, some, true, false, List, [], ◌∷◌, ◌≡◌, refl, ◌⊎◌, inl, inr, arith,
  Memᴰ, ltb, Bool-cases, Option-cases, filter, mem-filter, mem_of_mem-filter,
}
use pico_dome.Base.Text.{str_eq, eq_refl, str_leb_refl, str_leb_total, str_leb_trans}
use pico_dome.Base.Sort.{sort_by, sort_by-head_least, mem-sort_by}
use pico_dome.Cluster.Node.{
  NodeStatus, online, offline, draining, is_online, ClusterNode, ScanRequest,
}
use pico_dome.Cluster.Backend.{StateBackend}
use pico_dome.Cluster.State.{
  load_leb, head?, least_loaded, assign_to, assign_scan, release, complete_scan, release_old,
  fail_scan,
}

load_leb_refl : (m : ClusterNode) → load_leb m m ≡ true
unfolding load_leb
load_leb_refl m = ground (arith, str_leb_refl m.node_id)

load_leb_total : (m n : ClusterNode) → load_leb m n ≡ false → load_leb n m ≡ true
unfolding load_leb
load_leb_total m n h = ground (arith, str_leb_total m.node_id n.node_id)

load_leb_trans :
    (m n k : ClusterNode) → load_leb m n ≡ true → load_leb n k ≡ true → load_leb m k ≡ true
unfolding load_leb
load_leb_trans m n k h l = ground (arith, str_leb_trans m.node_id n.node_id k.node_id)

pub online_of_is_online : (t : NodeStatus) → is_online t ≡ true → t ≡ online
online_of_is_online online h = refl
online_of_is_online offline h = cc
online_of_is_online draining h = cc

module _ {S : Type 0} (b : StateBackend S) where
  open b use {
    save_node, load_node, load_all_nodes, save_scan, load_scan, IsStore, save_node-IsStore,
    save_scan-IsStore, load_node-save_node, load_node-save_scan, mem-load_all_nodes,
    load_node_of_mem, load_scan-save_scan, load_scan-save_node, load_scan_id, load_node_id,
  }

  abbrev pub NoneOnline : S → Type 0
  NoneOnline s =
      (i : String) (m : ClusterNode) → load_node i s ≡ some m → is_online m.status ≡ false

  -- `n` is registered, online, and no later than any other online node by load and id.
  pub record IsLeast (s : S) (n : ClusterNode) : Type 0 where
    pub known : load_node n.node_id s ≡ some n
    pub is_on : is_online n.status ≡ true
    pub least :
        (i : String) (m : ClusterNode)
        → load_node i s ≡ some m
        → is_online m.status ≡ true
        → load_leb n m ≡ true

  pub least_loaded_cases :
      (s : S)
      → IsStore s
      → (least_loaded b s ≡ none) × NoneOnline s
        ⊎ ((n : ClusterNode) × (least_loaded b s ≡ some n) × IsLeast s n)
  unfolding least_loaded
  least_loaded_cases s h = go (sort_by load_leb nodes) refl
    where
      nodes : List ClusterNode
      nodes = filter (λ n. is_online n.status) (load_all_nodes s)

      listed :
          (i : String) (m : ClusterNode)
          → load_node i s ≡ some m
          → is_online m.status ≡ true
          → Memᴰ m nodes
      listed i m e o =
          mem-filter (λ n. is_online n.status) (load_all_nodes s) (mem-load_all_nodes i m s e) o

      go :
          (l : List ClusterNode)
          → sort_by load_leb nodes ≡ l
          → (head? l ≡ none) × NoneOnline s ⊎ ((n : ClusterNode) × (head? l ≡ some n) × IsLeast s n)
      go [] e = inl (
        refl,
        λ i m k. elim (Bool-cases (is_online m.status)) [
          | inl o ↦ elim (rw e at (mem-sort_by load_leb nodes (listed i m k o))) [ ]
          | inr o ↦ o
        ],
      )
      go (n ∷ l) e =
          let (mem, least) = sort_by-head_least load_leb load_leb_total load_leb_trans nodes e in
          let (known, on) = mem_of_mem-filter (λ n. is_online n.status) (load_all_nodes s) mem in
          inr (
            n,
            refl,
            record {
              known = load_node_of_mem n s h known;
              is_on = on;
              least = λ i m k o. elim (least m (listed i m k o)) [
                | inl q ↦ rw q (load_leb_refl n)
                | inr q ↦ q
              ];
            },
          )

  -- What `assign_scan` has done for an unassigned scan: it took the least loaded online node.
  pub record IsAssigned (s : S) (scan : ScanRequest) (n : ClusterNode) (r : S × Option ClusterNode)
      : Type 0 where
    pub chosen : IsLeast s n
    pub returned : r.1 ≡ some (record n { load = n.load + 1 })
    pub counted : load_node n.node_id r.0 ≡ some (record n { load = n.load + 1 })
    pub running :
        load_scan scan.scan_id r.0
        ≡ some (record scan { assigned_node = some n.node_id; status = "running" })

  assign_scan_new :
      (i : String) (scan : ScanRequest) (s : S)
      → load_scan i s ≡ some scan
      → scan.assigned_node ≡ none
      → assign_scan b i s ≡ assign_to b scan (least_loaded b s) s
  unfolding assign_scan
  assign_scan_new i scan s e u = ground arith

  -- For a stored scan with no node, `assign_scan` either finds no online node, returns `None` and
  -- changes nothing, or it returns an online node that is least by load and then by id, with its
  -- load raised by one in the store, and stores the scan as running on that node.
  pub assign_scan_least :
      (i : String) (scan : ScanRequest) (s : S)
      → IsStore s
      → load_scan i s ≡ some scan
      → scan.assigned_node ≡ none
      → (assign_scan b i s ≡ (s, none)) × NoneOnline s
        ⊎ ((n : ClusterNode) × IsAssigned s scan n (assign_scan b i s))
  unfolding assign_to
  assign_scan_least i scan s h e u = elim (least_loaded_cases s h) [
    | inl (l, none_on) ↦ rw (assign_scan_new i scan s e u) (inl (rw l, none_on))
    | inr (n, l, chosen) ↦ rw (assign_scan_new i scan s e u) (inr (n, rw l (assigned n chosen)))
  ]
    where
      assigned : (n : ClusterNode) → IsLeast s n → IsAssigned s scan n (assign_to b scan (some n) s)
      assigned n chosen = record {
        chosen = chosen;
        returned = refl;
        counted = rw (load_node-save_node, eq_refl);
        running = rw (load_scan-save_node, load_scan-save_scan, eq_refl);
      }

  -- A scan that has a node keeps it, and nothing is written.
  pub assign_scan_again :
      (i a : String) (scan : ScanRequest) (s : S)
      → load_scan i s ≡ some scan
      → scan.assigned_node ≡ some a
      → assign_scan b i s ≡ (s, load_node a s)
  unfolding assign_scan
  assign_scan_again i a scan s e u = ground arith

  pub assign_scan-IsStore : (i : String) (s : S) → IsStore s → IsStore (assign_scan b i s).0
  unfolding assign_scan
  assign_scan-IsStore i s h = elim (Option-cases (load_scan i s)) [
    | inl e ↦ rw (e, assign_scan) h
    | inr (scan, e) ↦ elim (Option-cases scan.assigned_node) [
      | inr (a, u) ↦ rw (e, u, assign_scan) h
      | inl u ↦ elim (Option-cases (least_loaded b s)) [
        | inl l ↦ rw (e, u, l, assign_scan) h
        | inr (n, l) ↦ rw (e, u, l, assign_scan) (save_node-IsStore _ _ (save_scan-IsStore _ s h))
      ]
    ]
  ]

  pub release-IsStore : (o : Option ClusterNode) (s : S) → IsStore s → IsStore (release b o s)
  unfolding release
  release-IsStore none s h = h
  release-IsStore (some n) s h = elim (Bool-cases (ltb 0 n.load)) [
    | inl q ↦ rw q (save_node-IsStore _ s h)
    | inr q ↦ rw q h
  ]

  pub release_old-IsStore : (o : Option String) (s : S) → IsStore s → IsStore (release_old b o s)
  unfolding release_old
  release_old-IsStore none s h = h
  release_old-IsStore (some a) s h = elim (Bool-cases (str_eq a "")) [
    | inl q ↦ rw q h
    | inr q ↦ rw q (release-IsStore (load_node a s) s h)
  ]

  pub fail_scan-IsStore : (i : String) (s : S) → IsStore s → IsStore (fail_scan b i s)
  unfolding fail_scan
  fail_scan-IsStore i s h = elim (Option-cases (load_scan i s)) [
    | inl e ↦ rw (e, fail_scan) h
    | inr (scan, e) ↦
        rw (e, fail_scan) (release_old-IsStore scan.assigned_node _ (save_scan-IsStore _ s h))
  ]

  pub complete_scan-IsStore : (i a : String) (s : S) → IsStore s → IsStore (complete_scan b i a s)
  unfolding complete_scan
  complete_scan-IsStore i a s h = elim (Option-cases (load_scan i s)) [
    | inl e ↦ rw (e, complete_scan) h
    | inr (scan, e) ↦
        let scan' = record scan { status = "completed" } in
        rw (e, complete_scan)
          (release-IsStore (load_node a (save_scan scan' s)) (save_scan scan' s)
            (save_scan-IsStore scan' s h))
  ]
