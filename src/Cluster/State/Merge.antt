-- ===== src/Cluster/State/Merge.antt =====
-- cluster/manager.py: `merge_state` forgets nothing, and never takes a heartbeat or a scan status back.
use pico_dome.Base.{
  ◌≤◌, String, Option, none, some, true, List, [], ◌∷◌, ◌≡◌, inl, inr, arith, leb, Bool-cases,
  Option-cases,
}
use pico_dome.Base.Text.{str_eq, eq_iff, str_leb, str_leb_refl, str_leb_trans}
use pico_dome.Cluster.Node.{
  Result-cases, ClusterNode, ScanRequest, NodeData, ScanData, node_from_dict, scan_from_dict,
}
use pico_dome.Cluster.Backend.{StateBackend}
use pico_dome.Cluster.State.{
  Snapshot, status_rank, merge_node, merge_scan, merge_leader, merge_nodes, merge_scans,
  merge_state,
}

-- A node that was there is there, and its heartbeat is no older; a node may be new.
abbrev pub NodeAdvances : Option ClusterNode → Option ClusterNode → Type 0
NodeAdvances none _ = Unit
NodeAdvances (some m) none = ⊥
NodeAdvances (some m) (some n) = str_leb m.last_heartbeat n.last_heartbeat ≡ true

abbrev pub ScanAdvances : Option ScanRequest → Option ScanRequest → Type 0
ScanAdvances none _ = Unit
ScanAdvances (some c) none = ⊥
ScanAdvances (some c) (some d) = status_rank c.status ≤ status_rank d.status

NodeAdvances-refl : (o : Option ClusterNode) → NodeAdvances o o
NodeAdvances-refl none = tt
NodeAdvances-refl (some n) = str_leb_refl n.last_heartbeat

NodeAdvances-trans :
    (o p q : Option ClusterNode) → NodeAdvances o p → NodeAdvances p q → NodeAdvances o q
NodeAdvances-trans none p q h k = tt
NodeAdvances-trans (some m) none q h k = absurd h
NodeAdvances-trans (some m) (some n) none h k = absurd k
NodeAdvances-trans (some m) (some n) (some l) h k =
    str_leb_trans m.last_heartbeat n.last_heartbeat l.last_heartbeat h k

ScanAdvances-refl : (o : Option ScanRequest) → ScanAdvances o o
ScanAdvances-refl none = tt
ScanAdvances-refl (some n) = omega arith

ScanAdvances-trans :
    (o p q : Option ScanRequest) → ScanAdvances o p → ScanAdvances p q → ScanAdvances o q
ScanAdvances-trans none p q h k = tt
ScanAdvances-trans (some m) none q h k = absurd h
ScanAdvances-trans (some m) (some n) none h k = absurd k
ScanAdvances-trans (some m) (some n) (some l) h k = omega arith

module _ {S : Type 0} (b : StateBackend S) where
  open b use {
    save_node, load_node, save_scan, load_scan, load_node-save_node, load_node-save_scan,
    load_scan-save_scan, load_scan-save_node, load_node-set_leader_id, load_scan-set_leader_id,
  }

  -- Every node and every scan of the first store has only advanced in the second.
  pub record Advances (s t : S) : Type 0 where
    pub nodes : (i : String) → NodeAdvances (load_node i s) (load_node i t)
    pub scans : (i : String) → ScanAdvances (load_scan i s) (load_scan i t)

  Advances-refl : (s : S) → Advances s s
  Advances-refl s = record {
    nodes = λ i. NodeAdvances-refl (load_node i s);
    scans = λ i. ScanAdvances-refl (load_scan i s);
  }

  Advances-trans : (s t u : S) → Advances s t → Advances t u → Advances s u
  Advances-trans s t u h k = record {
    nodes = λ i.
        NodeAdvances-trans (load_node i s) (load_node i t) (load_node i u) (h.nodes i) (k.nodes i);
    scans = λ i.
        ScanAdvances-trans (load_scan i s) (load_scan i t) (load_scan i u) (h.scans i) (k.scans i);
  }

  save_node-Advances :
      (n : ClusterNode) (s : S)
      → NodeAdvances (load_node n.node_id s) (some n)
      → Advances s (save_node n s)
  save_node-Advances n s h = record {
    nodes = λ i. rw load_node-save_node (elim (Bool-cases (str_eq n.node_id i)) [
      | inl q ↦ rw (q, ← (eq_iff n.node_id i).0 q) h
      | inr q ↦ rw q (NodeAdvances-refl (load_node i s))
    ]);
    scans = λ i. rw load_scan-save_node (ScanAdvances-refl (load_scan i s));
  }

  save_scan-Advances :
      (c : ScanRequest) (s : S)
      → ScanAdvances (load_scan c.scan_id s) (some c)
      → Advances s (save_scan c s)
  save_scan-Advances c s h = record {
    nodes = λ i. rw load_node-save_scan (NodeAdvances-refl (load_node i s));
    scans = λ i. rw load_scan-save_scan (elim (Bool-cases (str_eq c.scan_id i)) [
      | inl q ↦ rw (q, ← (eq_iff c.scan_id i).0 q) h
      | inr q ↦ rw q (ScanAdvances-refl (load_scan i s))
    ]);
  }

  merge_node-Advances : (n : ClusterNode) (s : S) → Advances s (merge_node b n s)
  unfolding merge_node
  merge_node-Advances n s = elim (Option-cases (load_node n.node_id s)) [
    | inl e ↦ rw (e, merge_node) (save_node-Advances n s (rw e tt))
    | inr (l, e) ↦ elim (Bool-cases (str_leb l.last_heartbeat n.last_heartbeat)) [
      | inl q ↦ rw (e, merge_node, q) (save_node-Advances n s (rw e q))
      | inr q ↦ rw (e, merge_node, q) (Advances-refl s)
    ]
  ]

  merge_scan-Advances : (c : ScanRequest) (s : S) → Advances s (merge_scan b c s)
  unfolding merge_scan
  merge_scan-Advances c s = elim (Option-cases (load_scan c.scan_id s)) [
    | inl e ↦ rw (e, merge_scan) (save_scan-Advances c s (rw e tt))
    | inr (l, e) ↦ elim (Bool-cases (leb (status_rank l.status) (status_rank c.status))) [
      | inl q ↦ rw (e, merge_scan, q) (save_scan-Advances c s (rw e (ground arith)))
      | inr q ↦ rw (e, merge_scan, q) (Advances-refl s)
    ]
  ]

  merge_nodes-Advances : (ds : List NodeData) (s : S) → Advances s (merge_nodes b ds s).0
  unfolding merge_nodes
  merge_nodes-Advances [] s = Advances-refl s
  merge_nodes-Advances (d ∷ ds) s = elim (Result-cases (node_from_dict d)) [
    | inr (e, q) ↦ rw (q, merge_nodes) (Advances-refl s)
    | inl (n, q) ↦
        let rest = merge_nodes-Advances ds (merge_node b n s) in
        rw (q, merge_nodes)
          (Advances-trans s (merge_node b n s) (merge_nodes b ds (merge_node b n s)).0
            (merge_node-Advances n s) rest)
  ]

  merge_scans-Advances : (ds : List ScanData) (s : S) → Advances s (merge_scans b ds s).0
  unfolding merge_scans
  merge_scans-Advances [] s = Advances-refl s
  merge_scans-Advances (d ∷ ds) s = elim (Result-cases (scan_from_dict d)) [
    | inr (e, q) ↦ rw (q, merge_scans) (Advances-refl s)
    | inl (c, q) ↦
        let rest = merge_scans-Advances ds (merge_scan b c s) in
        rw (q, merge_scans)
          (Advances-trans s (merge_scan b c s) (merge_scans b ds (merge_scan b c s)).0
            (merge_scan-Advances c s) rest)
  ]

  merge_leader-Advances : (o : Option String) (s : S) → Advances s (merge_leader b o s)
  unfolding merge_leader
  merge_leader-Advances none s = Advances-refl s
  merge_leader-Advances (some a) s = elim (Bool-cases (str_eq a "")) [
    | inl q ↦ rw q (Advances-refl s)
    | inr q ↦ rw q (record {
      nodes = λ i. rw load_node-set_leader_id (NodeAdvances-refl (load_node i s));
      scans = λ i. rw load_scan-set_leader_id (ScanAdvances-refl (load_scan i s));
    })
  ]

  -- Whatever snapshot a peer sends, also one that cannot be read to its end, merging it forgets no
  -- node and no scan, takes no heartbeat back, and takes no scan status back in the order failed,
  -- pending, running, completed.
  pub merge_state-Advances : (snapshot : Snapshot) (s : S) → Advances s (merge_state b snapshot s).0
  unfolding merge_state
  merge_state-Advances snapshot s =
      let s1 = (merge_nodes b snapshot.nodes s).0 in
      let first = merge_nodes-Advances snapshot.nodes s in
      let s2 = (merge_scans b snapshot.scans s1).0 in
      let second = Advances-trans s s1 s2 first (merge_scans-Advances snapshot.scans s1) in
      elim (Result-cases (merge_nodes b snapshot.nodes s).1) [
        | inr (e, q) ↦ rw (q, merge_state) first
        | inl (_, q) ↦ elim (Result-cases (merge_scans b snapshot.scans s1).1) [
          | inr (e, r) ↦ rw (q, merge_state, r) second
          | inl (_, r) ↦
              rw (q, merge_state, r)
                (Advances-trans s s2 (merge_leader b snapshot.leader_id s2) second
                  (merge_leader-Advances snapshot.leader_id s2))
        ]
      ]
