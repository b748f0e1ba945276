-- ===== src/Cluster/Backend.antt =====
-- cluster/manager.py: the interface `StateBackend`, with the laws on which the shared state
-- rests. A backend keeps nodes and scans under their own ids, and the id of the leader.
use pico_dome.Base.{String, Option, none, some, List, ◌≡◌, Memᴰ, if◌then◌else◌}
use pico_dome.Base.Text.{str_eq}
use pico_dome.Cluster.Node.{ClusterNode, ScanRequest}

pub record StateBackend (S : Type 0) : Type 1 where
  pub save_node : ClusterNode → S → S
  pub load_node : String → S → Option ClusterNode
  pub load_all_nodes : S → List ClusterNode
  pub delete_node : String → S → S
  pub save_scan : ScanRequest → S → S
  pub load_scan : String → S → Option ScanRequest
  pub load_all_scans : S → List ScanRequest
  pub delete_scan : String → S → S
  pub get_leader_id : S → Option String
  pub set_leader_id : String → S → S
  -- What a backend keeps true of its store.
  pub IsStore : S → Type 0
  pub save_node-IsStore : (n : ClusterNode) (s : S) → IsStore s → IsStore (save_node n s)
  pub delete_node-IsStore : (i : String) (s : S) → IsStore s → IsStore (delete_node i s)
  pub save_scan-IsStore : (c : ScanRequest) (s : S) → IsStore s → IsStore (save_scan c s)
  pub delete_scan-IsStore : (i : String) (s : S) → IsStore s → IsStore (delete_scan i s)
  pub set_leader_id-IsStore : (i : String) (s : S) → IsStore s → IsStore (set_leader_id i s)
  -- Nodes.
  pub load_node-save_node :
      (i : String) (n : ClusterNode) (s : S)
      → load_node i (save_node n s) ≡ (if str_eq n.node_id i then some n else load_node i s)
  pub load_node-delete_node :
      (i j : String) (s : S)
      → load_node i (delete_node j s) ≡ (if str_eq j i then none else load_node i s)
  pub load_node-save_scan :
      (i : String) (c : ScanRequest) (s : S) → load_node i (save_scan c s) ≡ load_node i s
  pub load_node-delete_scan : (i j : String) (s : S) → load_node i (delete_scan j s) ≡ load_node i s
  pub load_node-set_leader_id :
      (i j : String) (s : S) → load_node i (set_leader_id j s) ≡ load_node i s
  pub load_node_id :
      (i : String) (n : ClusterNode) (s : S) → IsStore s → load_node i s ≡ some n → n.node_id ≡ i
  pub mem-load_all_nodes :
      (i : String) (n : ClusterNode) (s : S) → load_node i s ≡ some n → Memᴰ n (load_all_nodes s)
  pub load_node_of_mem :
      (n : ClusterNode) (s : S)
      → IsStore s
      → Memᴰ n (load_all_nodes s)
      → load_node n.node_id s ≡ some n
  -- Scans.
  pub load_scan-save_scan :
      (i : String) (c : ScanRequest) (s : S)
      → load_scan i (save_scan c s) ≡ (if str_eq c.scan_id i then some c else load_scan i s)
  pub load_scan-delete_scan :
      (i j : String) (s : S)
      → load_scan i (delete_scan j s) ≡ (if str_eq j i then none else load_scan i s)
  pub load_scan-save_node :
      (i : String) (n : ClusterNode) (s : S) → load_scan i (save_node n s) ≡ load_scan i s
  pub load_scan-delete_node : (i j : String) (s : S) → load_scan i (delete_node j s) ≡ load_scan i s
  pub load_scan-set_leader_id :
      (i j : String) (s : S) → load_scan i (set_leader_id j s) ≡ load_scan i s
  pub load_scan_id :
      (i : String) (c : ScanRequest) (s : S) → IsStore s → load_scan i s ≡ some c → c.scan_id ≡ i
  pub mem-load_all_scans :
      (i : String) (c : ScanRequest) (s : S) → load_scan i s ≡ some c → Memᴰ c (load_all_scans s)
  pub load_scan_of_mem :
      (c : ScanRequest) (s : S)
      → IsStore s
      → Memᴰ c (load_all_scans s)
      → load_scan c.scan_id s ≡ some c
  -- The leader.
  pub get_leader_id-set_leader_id :
      (i : String) (s : S) → get_leader_id (set_leader_id i s) ≡ some i
  pub get_leader_id-save_node :
      (n : ClusterNode) (s : S) → get_leader_id (save_node n s) ≡ get_leader_id s
  pub get_leader_id-delete_node :
      (i : String) (s : S) → get_leader_id (delete_node i s) ≡ get_leader_id s
  pub get_leader_id-save_scan :
      (c : ScanRequest) (s : S) → get_leader_id (save_scan c s) ≡ get_leader_id s
  pub get_leader_id-delete_scan :
      (i : String) (s : S) → get_leader_id (delete_scan i s) ≡ get_leader_id s
