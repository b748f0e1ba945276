-- ===== src/Cluster/Tests.antt =====
-- A small cluster, what the code does on it, and the theorems at it.
use pico_dome.Base.{
  Memᴰ, ◌↔◌, ℕ, String, Option, none, some, true, List, [], ◌∷◌, ◌≡◌, refl, ◌⊎◌, if◌then◌else◌,
  filter, ◌&&◌,
}
use pico_dome.Base.Text.{str_eq, str_leb}
use pico_dome.Base.Sort.{sort_by}
use pico_dome.Base.Dict.{lookup, insert, values, replace}
use pico_dome.Cluster.Node.{
  ok, NodeStatus, online, offline, is_online, ClusterNode, ScanRequest, node_to_dict,
  node_from_dict, scan_to_dict, scan_from_dict, scan_from_dict-scan_to_dict,
}
use pico_dome.Cluster.Memory.{MemoryStore, IsMemoryStore, memory_backend}
use pico_dome.Cluster.Sqlite.{SqliteStore, IsSqliteStore, sqlite_backend}
use pico_dome.Cluster.Agree.{Write, write_all, Agree, write_all-Agree}
use pico_dome.Cluster.State.{
  Snapshot, load_leb, id_leb, list_online_nodes, least_loaded, assign_scan, fail_scan, elect_leader,
  get_scans_for_node, merge_state,
}
use pico_dome.Cluster.State.Assign.{NoneOnline, IsAssigned, assign_scan_least}
use pico_dome.Cluster.State.Frame.{status_at}
use pico_dome.Cluster.State.Merge.{Advances, merge_state-Advances}
use pico_dome.Cluster.Manager.{ClusterManager, handle_node_failure, is_late, check_node_health}
use pico_dome.Cluster.Manager.Failover.{IsFailedOver, handle_node_failure-IsFailedOver}
use pico_dome.Cluster.Manager.Health.{check_node_health_lem}

abbrev node : String → NodeStatus → String → ℕ → ClusterNode
node i t beat load = record {
  node_id = i;
  address = "10.0.0.1";
  port = 8444;
  status = t;
  last_heartbeat = beat;
  load = load;
}

abbrev scan : String → Option String → String → ScanRequest
scan i a t = record {
  scan_id = i;
  command = "npm" ∷ [];
  priority = 0;
  assigned_node = a;
  created_at = "";
  status = t;
}

abbrev n_a : ClusterNode
n_a = node "a" online "t1" 1

abbrev n_b : ClusterNode
n_b = node "b" online "t2" 0

abbrev s_1 : ScanRequest
s_1 = scan "s1" (some "a") "running"

abbrev s_2 : ScanRequest
s_2 = scan "s2" none "pending"

abbrev store : MemoryStore
store = record {
  nodes = ("a", n_a) ∷ ("b", n_b) ∷ [];
  scans = ("s1", s_1) ∷ ("s2", s_2) ∷ [];
  leader_id = some "a";
}

store-IsStore : IsMemoryStore store
unfolding lookup
store-IsStore = ((refl, refl, (refl, refl, tt)), (refl, refl, (refl, refl, tt)))

-- The failed node is offline and its scan runs on the other node.
failover_run : (handle_node_failure memory_backend "a" store).0 ≡ record {
  nodes = ("a", node "a" offline "t1" 0) ∷ ("b", node "b" online "t2" 1) ∷ [];
  scans = ("s1", scan "s1" (some "b") "running") ∷ ("s2", s_2) ∷ [];
  leader_id = some "a";
}
unfolding handle_node_failure get_scans_for_node assign_scan fail_scan least_loaded sort_by filter
    load_leb lookup insert values str_leb
failover_run = refl

scan_from_dict-scan_to_dict_example : scan_from_dict (scan_to_dict s_1) ≡ ok s_1
scan_from_dict-scan_to_dict_example = scan_from_dict-scan_to_dict s_1

assign_scan_least_example :
    (assign_scan memory_backend "s2" store ≡ (store, none)) × NoneOnline memory_backend store
    ⊎ ((n : ClusterNode) × IsAssigned memory_backend store s_2 n
          (assign_scan memory_backend "s2" store))
unfolding lookup
assign_scan_least_example = assign_scan_least memory_backend "s2" s_2 store store-IsStore refl refl

handle_node_failure-IsFailedOver_example :
    IsFailedOver memory_backend "a" store (handle_node_failure memory_backend "a" store).0
unfolding lookup
handle_node_failure-IsFailedOver_example =
    handle_node_failure-IsFailedOver memory_backend "a" n_a store store-IsStore refl

abbrev clock : String → Option ℕ
clock t = if str_eq t "t1" then some 1000 else if str_eq t "t2" then some 1080 else none

abbrev manager : ClusterManager
manager = record {
  node_id = "b";
  address = "10.0.0.1";
  port = 8444;
  heartbeat_timeout = 30;
  max_missed_heartbeats = 2;
  running = true;
}

check_node_health_lem_example :
    status_at memory_backend "a" (check_node_health memory_backend clock "t2" manager store) ≡ (
      if is_online n_a.status && is_late clock "t2" manager n_a
      then some offline
      else some n_a.status)
unfolding lookup
check_node_health_lem_example =
    check_node_health_lem memory_backend clock "t2" manager "a" n_a store store-IsStore refl

-- 80 seconds without a heartbeat are too many.
is_late_run : is_late clock "t2" manager n_a ≡ true
unfolding is_late
is_late_run = refl

abbrev tables : SqliteStore
tables = record { cluster_nodes = []; cluster_scans = []; leader_id = none }

abbrev no_nodes : MemoryStore
no_nodes = record { nodes = []; scans = []; leader_id = none }

tables-IsStore : IsSqliteStore tables
unfolding lookup
tables-IsStore = ((tt, λ i r e. cc), (tt, λ i r e. cc))

abbrev writes : List Write
writes = Write.saves_node n_a ∷ Write.saves_scan s_1 ∷ Write.saves_node n_a ∷ []

write_all-Agree_example :
    let s' = write_all memory_backend writes no_nodes in
    let t' = write_all sqlite_backend writes tables in
    Agree memory_backend sqlite_backend s' t'
    × IsMemoryStore s'
    × IsSqliteStore t'
    × ((n : ClusterNode)
        → Memᴰ n (memory_backend.load_all_nodes s') ↔ Memᴰ n (sqlite_backend.load_all_nodes t'))
    × ((r : ScanRequest)
        → Memᴰ r (memory_backend.load_all_scans s') ↔ Memᴰ r (sqlite_backend.load_all_scans t'))
unfolding lookup
write_all-Agree_example =
    write_all-Agree memory_backend sqlite_backend writes no_nodes tables (tt, tt) tables-IsStore
      (record { nodes = λ i. refl; scans = λ i. refl; leader = refl })

abbrev memory_pair : MemoryStore
memory_pair = write_all memory_backend (Write.saves_node n_b ∷ Write.saves_node n_a ∷ []) no_nodes

abbrev sqlite_pair : SqliteStore
sqlite_pair = write_all sqlite_backend (Write.saves_node n_b ∷ Write.saves_node n_a ∷ []) tables

pairs-Agree : Agree memory_backend sqlite_backend memory_pair sqlite_pair
unfolding lookup
pairs-Agree =
    (write_all-Agree memory_backend sqlite_backend
      (Write.saves_node n_b ∷ Write.saves_node n_a ∷ []) no_nodes tables (tt, tt) tables-IsStore
      (record { nodes = λ i. refl; scans = λ i. refl; leader = refl })).0

memory_pair-IsStore : IsMemoryStore memory_pair
unfolding write_all
memory_pair-IsStore =
    memory_backend.save_node-IsStore n_a (memory_backend.save_node n_b no_nodes)
      (memory_backend.save_node-IsStore n_b no_nodes (tt, tt))

sqlite_pair-IsStore : IsSqliteStore sqlite_pair
unfolding write_all
sqlite_pair-IsStore =
    sqlite_backend.save_node-IsStore n_a (sqlite_backend.save_node n_b tables)
      (sqlite_backend.save_node-IsStore n_b tables tables-IsStore)

elect_leader_run : (elect_leader sqlite_backend sqlite_pair).1 ≡ some "a"
unfolding elect_leader list_online_nodes write_all sort_by filter id_leb str_leb replace lookup
    values node_to_dict node_from_dict
elect_leader_run = refl

abbrev peer : Snapshot
peer = record {
  nodes = node_to_dict (node "a" online "t3" 5) ∷ [];
  scans = scan_to_dict (scan "s1" none "pending") ∷ [];
  leader_id = some "b";
}

merge_state-Advances_example :
    Advances memory_backend store (merge_state memory_backend peer store).0
merge_state-Advances_example = merge_state-Advances memory_backend peer store
