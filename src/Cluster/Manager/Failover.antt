-- ===== src/Cluster/Manager/Failover.antt =====
-- cluster/manager.py: `handle_node_failure` moves every scan off the failed node.
use mathlib.Core.Path.{subst}
use pico_dome.Base.{
  String, Option, none, some, true, List, ◌≡◌, ◌≢◌, ◌↔◌, refl, sym, ◌∙◌, ◌⊎◌, inl, inr, arith, Memᴰ,
  Option-cases, mem-filter, mem_of_mem-filter, All, All-of_mem,
}
use pico_dome.Base.Text.{eq_iff, eq_refl}
use pico_dome.Cluster.Node.{offline, ClusterNode, ScanRequest}
use pico_dome.Cluster.Backend.{StateBackend}
use pico_dome.Cluster.State.{get_scans_for_node, is_assigned_to, complete_scan}
use pico_dome.Cluster.State.Frame.{status_at, load_scan-complete_scan, status_at-complete_scan}
use pico_dome.Cluster.State.Assign.{complete_scan-IsStore}
use pico_dome.Cluster.Manager.{redistribute, handle_node_failure}
use pico_dome.Cluster.Manager.Moves.{
  IsMoved, IsKnown, move_scans-IsStore, status_at-move_scans, move_scans-IsMoved,
  load_scan-move_scans_ne,
}

pub is_assigned_to_iff :
    (a : String) (c : ScanRequest) → (is_assigned_to a c ≡ true) ↔ (c.assigned_node ≡ some a)
is_assigned_to_iff a c = elim (Option-cases c.assigned_node) [
  | inl u ↦ (λ h. ground arith, λ h. ground arith)
  | inr (x, u) ↦ (λ h. ground (arith, eq_iff x a), λ h. ground (arith, eq_iff x a))
]

module _ {S : Type 0} (b : StateBackend S) where
  open b use {
    save_node, load_node, load_scan, load_all_scans, IsStore, save_node-IsStore,
    load_node-save_node, load_scan-save_node, load_scan_id, load_scan_of_mem, mem-load_all_scans,
    load_node_id,
  }

  -- What is left by the failure of the node `a`, from `s`.
  pub record IsFailedOver (a : String) (s s' : S) : Type 0 where
    pub is_off : status_at b a s' ≡ some offline
    pub moved :
        (i : String) (c : ScanRequest)
        → load_scan i s ≡ some c
        → c.assigned_node ≡ some a
        → IsMoved b s' (load_scan i s')
    pub kept :
        (i : String) (c : ScanRequest)
        → load_scan i s ≡ some c
        → c.assigned_node ≢ some a
        → load_scan i s' ≡ some c
    pub others : (i : String) → i ≢ a → status_at b i s' ≡ status_at b i s

  module _ (a : String) (n : ClusterNode) (s : S) (h : IsStore s) (e : load_node a s ≡ some n) where
    off_store : S
    off_store = save_node (record n { status = offline }) s

    failed : List ScanRequest
    failed = get_scans_for_node b a off_store

    off-IsStore : IsStore off_store
    unfolding off_store
    off-IsStore = save_node-IsStore (record n { status = offline }) s h

    failed-IsKnown : All (IsKnown b off_store) failed
    unfolding failed get_scans_for_node
    failed-IsKnown = All-of_mem (IsKnown b off_store) failed λ c m gone.
        let listed = (mem_of_mem-filter (is_assigned_to a) (load_all_scans off_store) m).0 in
        cc (load_scan_of_mem c off_store off-IsStore listed)

    load_scan-off : (i : String) → load_scan i off_store ≡ load_scan i s
    unfolding off_store
    load_scan-off i = load_scan-save_node i (record n { status = offline }) s

    failed_mem :
        (i : String) (c : ScanRequest)
        → load_scan i s ≡ some c
        → c.assigned_node ≡ some a
        → Memᴰ c failed × (c.scan_id ≡ i)
    unfolding failed get_scans_for_node
    failed_mem i c k u = (
      mem-filter (is_assigned_to a) (load_all_scans off_store)
          (mem-load_all_scans i c off_store (load_scan-off i ∙ k)) ((is_assigned_to_iff a c).1 u),
      load_scan_id i c s h k,
    )

    not_failed :
        (i : String) (c : ScanRequest)
        → load_scan i s ≡ some c
        → c.assigned_node ≢ some a
        → (d : ScanRequest) → Memᴰ d failed
        → d.scan_id ≢ i
    unfolding failed get_scans_for_node
    not_failed i c k u d m q =
        let (listed, mine) = mem_of_mem-filter (is_assigned_to a) (load_all_scans off_store) m in
        let found : load_scan d.scan_id off_store ≡ some d =
          load_scan_of_mem d off_store off-IsStore listed in
        let same : c ≡ d = ground (arith, load_scan-off i) in
        u (subst (λ x. x.assigned_node ≡ some a) (sym same) ((is_assigned_to_iff a d).0 mine))

    failover : IsFailedOver a s (redistribute b failed off_store)
    unfolding off_store
    failover = record {
      is_off =
          status_at-move_scans b a failed off_store off-IsStore
          ∙ ground (
            arith,
            load_node-save_node a (record n { status = offline }) s,
            eq_refl a,
            load_node_id a n s h e,
          );
      moved = λ i c k u.
          let (m, q) = failed_mem i c k u in
          move_scans-IsMoved b i failed off_store off-IsStore failed-IsKnown (inl (c, m, q));
      kept = λ i c k u.
          load_scan-move_scans_ne b i failed off_store off-IsStore failed-IsKnown
            (not_failed i c k u)
          ∙ load_scan-off i
          ∙ k;
      others = λ i ne.
          status_at-move_scans b i failed off_store off-IsStore
          ∙ ground (
            arith,
            load_node-save_node i (record n { status = offline }) s,
            eq_iff a i,
            load_node_id a n s h e,
          );
    }

  -- When a registered node fails it is left offline, every scan that was assigned to it is left
  -- either pending with no node or running on a node that is online, every other scan is left as it
  -- was, and so is the status of every other node.
  pub handle_node_failure-IsFailedOver :
      (a : String) (n : ClusterNode) (s : S)
      → IsStore s
      → load_node a s ≡ some n
      → IsFailedOver a s (handle_node_failure b a s).0
  unfolding handle_node_failure failed off_store
  handle_node_failure-IsFailedOver a n s h e = rw (e, handle_node_failure) (failover a n s h e)

  pub handle_node_failure-IsStore :
      (a : String) (s : S) → IsStore s → IsStore (handle_node_failure b a s).0
  unfolding handle_node_failure
  handle_node_failure-IsStore a s h = elim (Option-cases (load_node a s)) [
    | inl e ↦ rw (e, handle_node_failure) h
    | inr (n, e) ↦
        let off = save_node (record n { status = offline }) s in
        rw (e, handle_node_failure)
          (move_scans-IsStore b (get_scans_for_node b a off) off
            (save_node-IsStore (record n { status = offline }) s h))
  ]

  -- Where a scan of a registered node is completed and the node fails afterwards, the scan is no
  -- longer completed: it is pending or runs again.
  pub completed_scan_reopens :
      (a i : String) (n : ClusterNode) (c : ScanRequest) (s : S)
      → IsStore s
      → load_node a s ≡ some n
      → load_scan i s ≡ some c
      → c.assigned_node ≡ some a
      → let done = complete_scan b i a s in
        (load_scan i done ≡ some (record c { status = "completed" }))
        × ((d : ScanRequest) × (load_scan i (handle_node_failure b a done).0 ≡ some d)
            × ((d.status ≡ "pending") ⊎ (d.status ≡ "running")))
  completed_scan_reopens a i n c s h e l u = (complete, reopened (Option-cases (load_node a done)))
    where
      done : S
      done = complete_scan b i a s

      complete : load_scan i done ≡ some (record c { status = "completed" })
      complete = load_scan-complete_scan b i a c s h l

      status_of_moved :
          (s' : S) (o : Option ScanRequest)
          → IsMoved b s' o
          → (d : ScanRequest) × (o ≡ some d) × ((d.status ≡ "pending") ⊎ (d.status ≡ "running"))
      status_of_moved s' none m = absurd m
      status_of_moved s' (some d) (inl m) = (d, refl, inl m.1)
      status_of_moved s' (some d) (inr m) = (d, refl, inr m.2)

      reopened :
          (load_node a done ≡ none) ⊎ ((k : ClusterNode) × (load_node a done ≡ some k))
          → (d : ScanRequest) × (load_scan i (handle_node_failure b a done).0 ≡ some d)
            × ((d.status ≡ "pending") ⊎ (d.status ≡ "running"))
      reopened (inl gone) = let kept = status_at-complete_scan b a i a s h in ground arith
      reopened (inr (k, f)) =
          let over =
            handle_node_failure-IsFailedOver a k done (complete_scan-IsStore b i a s h) f in
          status_of_moved (handle_node_failure b a done).0
            (load_scan i (handle_node_failure b a done).0)
            (over.moved i (record c { status = "completed" }) complete u)
