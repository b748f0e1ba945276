-- ===== src/Cluster/State.antt =====
-- cluster/manager.py: `ClusterState`, over any state backend.
pub mod Assign
pub mod Frame
pub mod Leader
pub mod Merge
use pico_dome.Base.{
  ℕ, ◌+◌, ◌-◌, String, Option, none, some, Bool, true, false, not, List, [], ◌∷◌, ◌&&◌, ltb, leb,
  ◌==◌, if◌then◌else◌, filter, map,
}
use pico_dome.Base.Text.{str_eq, str_leb}
use pico_dome.Base.Sort.{sort_by}
use pico_dome.Cluster.Node.{
  Error, Result, ok, err, NodeStatus, online, is_online, ClusterNode, ScanRequest, NodeData,
  ScanData, node_from_dict, scan_from_dict, node_to_dict, scan_to_dict,
}
use pico_dome.Cluster.Backend.{StateBackend}

abbrev pub head? : {A : Type 0} → List A → Option A
head? [] = none
head? (x ∷ xs) = some x

-- A text or `None` where a condition is expected.
abbrev pub is_truthy : Option String → Bool
is_truthy none = false
is_truthy (some t) = not (str_eq t "")

-- The order of `key=lambda n: (n.load, n.node_id)`.
unfoldable pub load_leb : ClusterNode → ClusterNode → Bool
load_leb m n =
    if ltb m.load n.load
    then true
    else if m.load == n.load
    then str_leb m.node_id n.node_id
    else false

-- The order of `key=lambda n: n.node_id`.
unfoldable pub id_leb : ClusterNode → ClusterNode → Bool
id_leb m n = str_leb m.node_id n.node_id

-- `status_order.get(status, 0)`
unfoldable pub status_rank : String → ℕ
status_rank t =
    if str_eq t "completed"
    then 3
    else if str_eq t "running"
    then 2
    else if str_eq t "pending"
    then 1
    else 0

pub record Snapshot : Type 0 where
  pub nodes : List NodeData
  pub scans : List ScanData
  pub leader_id : Option String

abbrev pub is_assigned_to : String → ScanRequest → Bool
is_assigned_to node_id c = elim c.assigned_node [ none ↦ false | some a ↦ str_eq a node_id ]

module _ {S : Type 0} (b : StateBackend S) where
  open b use {
    save_node, load_node, load_all_nodes, delete_node, save_scan, load_scan, load_all_scans,
    get_leader_id, set_leader_id,
  }

  -- `list_nodes(status=NodeStatus.ONLINE)`
  unfoldable pub list_online_nodes : S → List ClusterNode
  list_online_nodes s = sort_by id_leb (filter (λ n. is_online n.status) (load_all_nodes s))

  -- The first of the online nodes by load and id.
  unfoldable pub least_loaded : S → Option ClusterNode
  least_loaded s = head? (sort_by load_leb (filter (λ n. is_online n.status) (load_all_nodes s)))

  unfoldable pub assign_to : ScanRequest → Option ClusterNode → S → S × Option ClusterNode
  assign_to scan none s = (s, none)
  assign_to scan (some target) s =
      let scan' = record scan { assigned_node = some target.node_id; status = "running" } in
      let target' = record target { load = target.load + 1 } in
      (save_node target' (save_scan scan' s), some target')

  unfoldable pub assign_loaded : ScanRequest → S → S × Option ClusterNode
  unfolding assign_to
  assign_loaded scan s = elim scan.assigned_node [
    | some a ↦ (s, load_node a s)
    | none ↦ assign_to scan (least_loaded s) s
  ]

  unfoldable pub assign_scan : String → S → S × Option ClusterNode
  unfolding assign_loaded
  assign_scan scan_id s = elim (load_scan scan_id s) [
    | none ↦ (s, none)
    | some scan ↦ assign_loaded scan s
  ]

  -- `if node and node.load > 0: node.load -= 1; save`
  unfoldable pub release : Option ClusterNode → S → S
  release none s = s
  release (some n) s = if ltb 0 n.load then save_node (record n { load = n.load - 1 }) s else s

  unfoldable pub complete_scan : String → String → S → S
  unfolding release
  complete_scan scan_id node_id s = elim (load_scan scan_id s) [
    | none ↦ s
    | some scan ↦
        let s' = save_scan (record scan { status = "completed" }) s in
        release (load_node node_id s') s'
  ]

  -- `if old_node: …`
  unfoldable pub release_old : Option String → S → S
  unfolding release
  release_old none s = s
  release_old (some a) s = if str_eq a "" then s else release (load_node a s) s

  unfoldable pub fail_scan : String → S → S
  unfolding release_old
  fail_scan scan_id s = elim (load_scan scan_id s) [
    | none ↦ s
    | some scan ↦
        release_old scan.assigned_node
          (save_scan (record scan { status = "pending"; assigned_node = none }) s)
  ]

  unfoldable pub get_pending_scans : S → List ScanRequest
  get_pending_scans s = filter (λ c. str_eq c.status "pending") (load_all_scans s)

  unfoldable pub get_scans_for_node : String → S → List ScanRequest
  get_scans_for_node node_id s = filter (is_assigned_to node_id) (load_all_scans s)

  -- Of no online node the leader stays what it was.
  unfoldable pub elect_leader : S → S × Option String
  elect_leader s = elim (list_online_nodes s) [
    | [] ↦ (s, none)
    | leader ∷ _ ↦ (set_leader_id leader.node_id s, some leader.node_id)
  ]

  unfoldable pub get_state_snapshot : S → Snapshot
  get_state_snapshot s = record {
    nodes = map node_to_dict (load_all_nodes s);
    scans = map scan_to_dict (load_all_scans s);
    leader_id = get_leader_id s;
  }

  -- One node of a snapshot: the remote one wins unless its heartbeat is older.
  unfoldable pub merge_node : ClusterNode → S → S
  merge_node remote s = elim (load_node remote.node_id s) [
    | none ↦ save_node remote s
    | some local_node ↦
        if str_leb local_node.last_heartbeat remote.last_heartbeat then save_node remote s else s
  ]

  -- One scan of a snapshot: the remote one wins unless its status is behind.
  unfoldable pub merge_scan : ScanRequest → S → S
  unfolding status_rank
  merge_scan remote s = elim (load_scan remote.scan_id s) [
    | none ↦ save_scan remote s
    | some local_scan ↦
        if leb (status_rank local_scan.status) (status_rank remote.status)
        then save_scan remote s
        else s
  ]

  unfoldable pub merge_leader : Option String → S → S
  merge_leader none s = s
  merge_leader (some a) s = if str_eq a "" then s else set_leader_id a s

  -- The loops stop at the first entry that cannot be read; what was merged before it stays.
  unfoldable pub merge_nodes : List NodeData → S → S × Result Unit
  unfolding merge_node
  merge_nodes [] s = (s, ok tt)
  merge_nodes (d ∷ ds) s = elim (node_from_dict d) [
    | ok remote ↦ merge_nodes ds (merge_node remote s)
    | err e ↦ (s, err e)
  ]

  unfoldable pub merge_scans : List ScanData → S → S × Result Unit
  unfolding merge_scan
  merge_scans [] s = (s, ok tt)
  merge_scans (d ∷ ds) s = elim (scan_from_dict d) [
    | ok remote ↦ merge_scans ds (merge_scan remote s)
    | err e ↦ (s, err e)
  ]

  unfoldable pub merge_state : Snapshot → S → S × Result Unit
  unfolding merge_nodes merge_scans merge_leader
  merge_state snapshot s =
      let (s1, r1) = merge_nodes snapshot.nodes s in
      elim r1 [
        | err e ↦ (s1, err e)
        | ok _ ↦
            let (s2, r2) = merge_scans snapshot.scans s1 in
            elim r2 [ err e ↦ (s2, err e) | ok _ ↦ (merge_leader snapshot.leader_id s2, ok tt) ]
      ]
