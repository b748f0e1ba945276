-- ===== src/Cluster/Node.antt =====
-- cluster/manager.py: the nodes and scan requests of a cluster, and their dictionary form. A
-- dictionary that was read from JSON is a record of the fields that the code looks up, each
-- possibly missing. `port`, `load` and `priority` are natural numbers.
pub use pico_dome.Base.Result.{
  Error, key_error, value_error, Result, ok, err, Result-cases, ◌>>=◌, required, get_or,
}
use pico_dome.Base.{ℕ, String, Option, some, Bool, true, false, List, ◌≡◌, refl, if◌then◌else◌}
use pico_dome.Base.Text.{str_eq}

pub data NodeStatus : Type 0 where
  online offline draining : NodeStatus

abbrev pub is_online : NodeStatus → Bool
is_online NodeStatus.online = true
is_online _ = false

-- `self.status.value`
unfoldable pub status_value : NodeStatus → String
status_value online = "online"
status_value offline = "offline"
status_value draining = "draining"

-- `NodeStatus(text)`
unfoldable pub parse_status : String → Result NodeStatus
parse_status text =
    if str_eq text "online"
    then ok online
    else if str_eq text "offline"
    then ok offline
    else if str_eq text "draining"
    then ok draining
    else err value_error

abbrev pub default_cluster_port : ℕ
default_cluster_port = 8444

pub record ClusterNode : Type 0 where
  pub node_id : String
  pub address : String
  pub port : ℕ
  pub status : NodeStatus
  pub last_heartbeat : String
  pub load : ℕ

pub record NodeData : Type 0 where
  pub node_id : Option String
  pub address : Option String
  pub port : Option ℕ
  pub status : Option String
  pub last_heartbeat : Option String
  pub load : Option ℕ

-- `ClusterNode.to_dict`
unfoldable pub node_to_dict : ClusterNode → NodeData
unfolding status_value
node_to_dict n = record {
  node_id = some n.node_id;
  address = some n.address;
  port = some n.port;
  status = some (status_value n.status);
  last_heartbeat = some n.last_heartbeat;
  load = some n.load;
}

-- `ClusterNode.from_dict`
unfoldable pub node_from_dict : NodeData → Result ClusterNode
unfolding parse_status
node_from_dict d = do
  node_id ← required d.node_id
  address ← required d.address
  status ← parse_status (get_or d.status "online")
  ok (record {
    node_id = node_id;
    address = address;
    port = get_or d.port default_cluster_port;
    status = status;
    last_heartbeat = get_or d.last_heartbeat "";
    load = get_or d.load 0;
  })

pub record ScanRequest : Type 0 where
  pub scan_id : String
  pub command : List String
  pub priority : ℕ
  pub assigned_node : Option String
  pub created_at : String
  -- "pending", "running", "completed" or "failed"; the code lets any text stand here
  pub status : String

-- `assigned_node` is `None` where it is missing and where it is null.
pub record ScanData : Type 0 where
  pub scan_id : Option String
  pub command : Option (List String)
  pub priority : Option ℕ
  pub assigned_node : Option String
  pub created_at : Option String
  pub status : Option String

-- `ScanRequest.to_dict`
unfoldable pub scan_to_dict : ScanRequest → ScanData
scan_to_dict s = record {
  scan_id = some s.scan_id;
  command = some s.command;
  priority = some s.priority;
  assigned_node = s.assigned_node;
  created_at = some s.created_at;
  status = some s.status;
}

-- `ScanRequest.from_dict`
unfoldable pub scan_from_dict : ScanData → Result ScanRequest
scan_from_dict d = do
  scan_id ← required d.scan_id
  command ← required d.command
  ok (record {
    scan_id = scan_id;
    command = command;
    priority = get_or d.priority 0;
    assigned_node = d.assigned_node;
    created_at = get_or d.created_at "";
    status = get_or d.status "pending";
  })

pub parse_status-status_value : (s : NodeStatus) → parse_status (status_value s) ≡ ok s
unfolding parse_status status_value
parse_status-status_value online = refl
parse_status-status_value offline = refl
parse_status-status_value draining = refl

-- Reading back the dictionary of a node gives the node, whatever its fields.
pub node_from_dict-node_to_dict : (n : ClusterNode) → node_from_dict (node_to_dict n) ≡ ok n
unfolding node_from_dict node_to_dict
node_from_dict-node_to_dict n = rw (parse_status-status_value n.status)

-- Reading back the dictionary of a scan request gives the scan request, whatever its fields.
pub scan_from_dict-scan_to_dict : (s : ScanRequest) → scan_from_dict (scan_to_dict s) ≡ ok s
unfolding scan_from_dict scan_to_dict
scan_from_dict-scan_to_dict s = refl
