-- ===== src/Cluster/Manager.antt =====
-- cluster/manager.py: `ClusterManager`, over any state backend. The clock is an argument, and so is
-- what other threads do while `stop` waits. Audit records and log lines are left out: the code
-- swallows every exception of the former.
pub mod Moves
pub mod Failover
pub mod Health
pub mod Lifecycle
use pico_dome.Base.{
  ℕ, ◌-◌, ◌*◌, String, Option, none, some, Bool, true, false, List, [], ◌∷◌, length, map, ltb, ◌==◌,
  if◌then◌else◌,
}
use pico_dome.Base.Text.{str_eq}
use pico_dome.Cluster.Node.{
  Result, ok, err, NodeStatus, online, offline, draining, ClusterNode, ScanRequest, parse_status,
}
use pico_dome.Cluster.Backend.{StateBackend}
use pico_dome.Cluster.State.{
  list_online_nodes, assign_scan, fail_scan, get_scans_for_node, elect_leader,
}

pub record ClusterManager : Type 0 where
  pub node_id : String
  pub address : String
  pub port : ℕ
  pub heartbeat_timeout : ℕ
  pub max_missed_heartbeats : ℕ
  pub running : Bool

-- Whether another node's last heartbeat, where there is one that can be read, is older than the manager
-- allows, by the clock `now`.
unfoldable pub is_late : (String → Option ℕ) → String → ClusterManager → ClusterNode → Bool
is_late parse_iso_timestamp now m n =
    let now_ts : ℕ = elim (parse_iso_timestamp now) [ none ↦ 0 | some t ↦ t ] in
    if str_eq n.node_id m.node_id
    then false
    else if str_eq n.last_heartbeat ""
    then false
    else elim (parse_iso_timestamp n.last_heartbeat) [
      | none ↦ false
      | some t ↦ ltb (m.heartbeat_timeout * m.max_missed_heartbeats) (now_ts - t)
    ]

module _ {S : Type 0} (b : StateBackend S) where
  open b use {save_node, load_node, delete_node, save_scan, get_leader_id}

  unfoldable pub start : String → ClusterManager → S → ClusterManager × S
  start now m s =
      let self_node : ClusterNode = record {
        node_id = m.node_id;
        address = m.address;
        port = m.port;
        status = online;
        last_heartbeat = now;
        load = 0;
      } in
      let s' = save_node self_node s in
      if m.running then (m, s) else (
        record m { running = true },
        if length (list_online_nodes b s') == 1 then (elect_leader b s').0 else s',
      )

  unfoldable pub save_status : Option ClusterNode → NodeStatus → S → S
  save_status none t s = s
  save_status (some n) t s = save_node (record n { status = t }) s

  unfoldable pub reelect : String → S → S
  reelect node_id s = elim (get_leader_id s) [
    | none ↦ (elect_leader b s).0
    | some l ↦ if str_eq l node_id then (elect_leader b s).0 else s
  ]

  unfoldable pub stop : (S → S) → ClusterManager → S → ClusterManager × S
  unfolding save_status reelect
  stop others m s =
      let node = load_node m.node_id s in
      let s1 = others (save_status node draining s) in
      let s2 = save_status node offline s1 in
      let s3 = delete_node m.node_id s2 in
      if m.running then (record m { running = false }, reelect m.node_id s3) else (m, s)

  -- `ClusterManager.assign_scan`
  unfoldable pub submit_scan : ScanRequest → S → S × Option ClusterNode
  submit_scan scan s = assign_scan b scan.scan_id (save_scan scan s)

  unfoldable pub handle_heartbeat :
      String → String → String → ℕ → S → S × Result (Option ClusterNode)
  handle_heartbeat now node_id status load s = elim (load_node node_id s) [
    | none ↦ (s, ok none)
    | some n ↦ elim (parse_status status) [
      | err e ↦ (s, err e)
      | ok t ↦
          let n' = record n { status = t; last_heartbeat = now; load = load } in
          (save_node n' s, ok (some n'))
    ]
  ]

  -- The `for` loop of `handle_node_failure`.
  unfoldable pub redistribute : List ScanRequest → S → S
  redistribute [] s = s
  redistribute (c ∷ cs) s = redistribute cs (assign_scan b c.scan_id (fail_scan b c.scan_id s)).0

  unfoldable pub handle_node_failure : String → S → S × List String
  unfolding redistribute
  handle_node_failure node_id s = elim (load_node node_id s) [
    | none ↦ (s, [])
    | some n ↦
        let s1 = save_node (record n { status = offline }) s in
        let failed = get_scans_for_node b node_id s1 in
        (redistribute failed s1, map (λ c. c.scan_id) failed)
  ]

  module _ (parse_iso_timestamp : String → Option ℕ) where
    unfoldable pub check_nodes : String → ClusterManager → List ClusterNode → S → S
    check_nodes now m [] s = s
    check_nodes now m (n ∷ ns) s =
        check_nodes now m ns
          (if is_late parse_iso_timestamp now m n then (handle_node_failure n.node_id s).0 else s)

    -- `_check_node_health`
    unfoldable pub check_node_health : String → ClusterManager → S → S
    unfolding is_late check_nodes
    check_node_health now m s = check_nodes now m (list_online_nodes b s) s
