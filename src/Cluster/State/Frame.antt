-- ===== src/Cluster/State/Frame.antt =====
-- cluster/manager.py: what assigning, failing and completing a scan leave alone: the status of every
-- node, and every other scan.
use pico_dome.Base.{
  ◌+◌, ◌-◌, String, Option, none, some, ◌≡◌, ◌≢◌, refl, ◌∙◌, inl, inr, arith, ltb, if◌then◌else◌,
  Bool-cases, Option-cases,
}
use pico_dome.Base.Text.{str_eq, eq_iff}
use pico_dome.Cluster.Node.{NodeStatus, ClusterNode, ScanRequest}
use pico_dome.Cluster.Backend.{StateBackend}
use pico_dome.Cluster.State.{
  least_loaded, assign_loaded, assign_scan, release, complete_scan, release_old, fail_scan,
}
use pico_dome.Cluster.State.Assign.{least_loaded_cases}

abbrev pub status_of : Option ClusterNode → Option NodeStatus
status_of none = none
status_of (some n) = some n.status

module _ {S : Type 0} (b : StateBackend S) where
  open b use {
    save_node, load_node, save_scan, load_scan, IsStore, save_scan-IsStore, load_node-save_node,
    load_node-save_scan, load_scan-save_scan, load_scan-save_node, load_scan_id, load_node_id,
  }

  abbrev pub status_at : String → S → Option NodeStatus
  status_at j s = status_of (load_node j s)

  -- Saving a node under its id with its status as it was keeps every status.
  pub status_at-save_node :
      (j : String) (n n' : ClusterNode) (s : S)
      → load_node n'.node_id s ≡ some n
      → n'.status ≡ n.status
      → status_at j (save_node n' s) ≡ status_at j s
  status_at-save_node j n n' s e t = ground (arith, load_node-save_node j n' s, eq_iff n'.node_id j)

  pub status_at-release :
      (j a : String) (s : S) → IsStore s → status_at j (release b (load_node a s) s) ≡ status_at j s
  unfolding release
  status_at-release j a s h = elim (Option-cases (load_node a s)) [
    | inl e ↦ rw (e, release)
    | inr (n, e) ↦ elim (Bool-cases (ltb 0 n.load)) [
      | inr q ↦ rw (e, release, q)
      | inl q ↦
          let n' = record n { load = n.load - 1 } in
          let known : load_node n.node_id s ≡ some n = cc (load_node_id a n s h e) in
          rw (e, release, q) (status_at-save_node j n n' s known refl)
    ]
  ]

  status_at-release_old :
      (j : String) (o : Option String) (s : S)
      → IsStore s
      → status_at j (release_old b o s) ≡ status_at j s
  unfolding release_old
  status_at-release_old j none s h = refl
  status_at-release_old j (some a) s h = elim (Bool-cases (str_eq a "")) [
    | inl q ↦ rw q
    | inr q ↦ rw q (status_at-release j a s h)
  ]

  pub status_at-fail_scan :
      (j i : String) (s : S) → IsStore s → status_at j (fail_scan b i s) ≡ status_at j s
  unfolding fail_scan
  status_at-fail_scan j i s h = elim (Option-cases (load_scan i s)) [
    | inl e ↦ rw (e, fail_scan)
    | inr (scan, e) ↦
        let scan' = record scan { status = "pending"; assigned_node = none } in
        rw (
          e,
          fail_scan,
          status_at-release_old j scan.assigned_node (save_scan scan' s)
              (save_scan-IsStore scan' s h),
          load_node-save_scan,
        )
  ]

  pub status_at-assign_scan :
      (j i : String) (s : S) → IsStore s → status_at j (assign_scan b i s).0 ≡ status_at j s
  unfolding assign_scan
  status_at-assign_scan j i s h = elim (Option-cases (load_scan i s)) [
    | inl e ↦ rw (e, assign_scan)
    | inr (scan, e) ↦ elim (Option-cases scan.assigned_node) [
      | inr (a, u) ↦ ground arith
      | inl u ↦ elim (least_loaded_cases b s h) [
        | inl (l, _) ↦ ground arith
        | inr (n, l, chosen) ↦ rw (e, assign_scan) (moved scan n u l chosen.known)
      ]
    ]
  ]
    where
      moved :
          (scan : ScanRequest) (n : ClusterNode)
          → scan.assigned_node ≡ none
          → least_loaded b s ≡ some n
          → load_node n.node_id s ≡ some n
          → status_at j (assign_loaded b scan s).0 ≡ status_at j s
      moved scan n u l known =
          let scan' = record scan { assigned_node = some n.node_id; status = "running" } in
          let n' = record n { load = n.load + 1 } in
          let keeps =
            status_at-save_node j n n' (save_scan scan' s)
              (load_node-save_scan n.node_id scan' s ∙ known) refl in
          ground (arith, keeps, load_node-save_scan j scan' s)

  pub load_scan-release :
      (j : String) (o : Option ClusterNode) (s : S) → load_scan j (release b o s) ≡ load_scan j s
  unfolding release
  load_scan-release j none s = refl
  load_scan-release j (some n) s =
      ground (arith, load_scan-save_node j (record n { load = n.load - 1 }) s)

  load_scan-release_old :
      (j : String) (o : Option String) (s : S) → load_scan j (release_old b o s) ≡ load_scan j s
  unfolding release_old
  load_scan-release_old j none s = refl
  load_scan-release_old j (some a) s = ground (arith, load_scan-release j (load_node a s) s)

  -- A failed scan is pending with no node, and every other scan is as it was.
  pub load_scan-fail_scan :
      (j i : String) (scan : ScanRequest) (s : S)
      → IsStore s
      → load_scan i s ≡ some scan
      → load_scan j (fail_scan b i s) ≡ (
          if str_eq i j
          then some (record scan { status = "pending"; assigned_node = none })
          else load_scan j s)
  unfolding fail_scan
  load_scan-fail_scan j i scan s h e =
      let scan' = record scan { status = "pending"; assigned_node = none } in
      rw (e, fail_scan, load_scan-release_old, load_scan-save_scan, load_scan_id i scan s h e)

  pub load_scan-assign_scan_ne :
      (j i : String) (s : S) → IsStore s → i ≢ j → load_scan j (assign_scan b i s).0 ≡ load_scan j s
  unfolding assign_scan
  load_scan-assign_scan_ne j i s h ne = elim (Option-cases (load_scan i s)) [
    | inl e ↦ rw (e, assign_scan)
    | inr (scan, e) ↦ elim (Option-cases scan.assigned_node) [
      | inr (a, u) ↦ ground arith
      | inl u ↦ elim (Option-cases (least_loaded b s)) [
        | inl l ↦ ground arith
        | inr (n, l) ↦
            let scan' = record scan { assigned_node = some n.node_id; status = "running" } in
            let n' = record n { load = n.load + 1 } in
            ground (
              arith,
              load_scan-save_node j n' (save_scan scan' s),
              load_scan-save_scan j scan' s,
              load_scan_id i scan s h e,
              eq_iff scan.scan_id j,
            )
      ]
    ]
  ]

  -- A completed scan keeps its node.
  pub load_scan-complete_scan :
      (i a : String) (c : ScanRequest) (s : S)
      → IsStore s
      → load_scan i s ≡ some c
      → load_scan i (complete_scan b i a s) ≡ some (record c { status = "completed" })
  unfolding complete_scan
  load_scan-complete_scan i a c s h e =
      let c' = record c { status = "completed" } in
      let key = load_scan_id i c s h e in
      rw (e, complete_scan, load_scan-release, load_scan-save_scan)
        (ground (arith, eq_iff c.scan_id i))

  pub status_at-complete_scan :
      (j i a : String) (s : S) → IsStore s → status_at j (complete_scan b i a s) ≡ status_at j s
  unfolding complete_scan
  status_at-complete_scan j i a s h = elim (Option-cases (load_scan i s)) [
    | inl e ↦ rw (e, complete_scan)
    | inr (c, e) ↦
        let c' = record c { status = "completed" } in
        rw (
          e,
          complete_scan,
          status_at-release j a (save_scan c' s) (save_scan-IsStore c' s h),
          load_node-save_scan,
        )
  ]
