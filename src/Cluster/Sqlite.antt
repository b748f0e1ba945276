-- ===== src/Cluster/Sqlite.antt =====
-- cluster/manager.py: `SQLiteStateBackend`, on the tables of Cluster/Table.antt.
use pico_dome.Base.{String, Option, some, refl}
use pico_dome.Base.Dict.{Dict, pop}
use pico_dome.Cluster.Node.{
  ClusterNode, ScanRequest, NodeData, ScanData, node_to_dict, node_from_dict, scan_to_dict,
  scan_from_dict, node_from_dict-node_to_dict, scan_from_dict-scan_to_dict,
}
use pico_dome.Cluster.Backend.{StateBackend}
use pico_dome.Cluster.Table.{
  IsTable, save, load_one, load_all, save-IsTable, pop-IsTable, load_one-save, load_one-pop,
  load_one_key, mem-load_all, load_one_of_mem,
}

abbrev node_key : ClusterNode → String
node_key n = n.node_id

abbrev scan_key : ScanRequest → String
scan_key c = c.scan_id

-- The tables `cluster_nodes` and `cluster_scans`, and the row `leader_id` of `cluster_meta`.
pub record SqliteStore : Type 0 where
  pub cluster_nodes : Dict (String × NodeData)
  pub cluster_scans : Dict (String × ScanData)
  pub leader_id : Option String

abbrev pub IsSqliteStore : SqliteStore → Type 0
IsSqliteStore s =
    IsTable node_key node_to_dict node_from_dict node_from_dict-node_to_dict s.cluster_nodes
    × IsTable scan_key scan_to_dict scan_from_dict scan_from_dict-scan_to_dict s.cluster_scans

abbrev pub sqlite_backend : StateBackend SqliteStore
sqlite_backend = record {
  save_node = λ n s. record s {
    cluster_nodes =
        save node_key node_to_dict node_from_dict node_from_dict-node_to_dict n s.cluster_nodes;
  };
  load_node = λ i s.
      load_one node_key node_to_dict node_from_dict node_from_dict-node_to_dict i s.cluster_nodes;
  load_all_nodes = λ s.
      load_all node_key node_to_dict node_from_dict node_from_dict-node_to_dict s.cluster_nodes;
  delete_node = λ i s. record s { cluster_nodes = pop i s.cluster_nodes };
  save_scan = λ c s. record s {
    cluster_scans =
        save scan_key scan_to_dict scan_from_dict scan_from_dict-scan_to_dict c s.cluster_scans;
  };
  load_scan = λ i s.
      load_one scan_key scan_to_dict scan_from_dict scan_from_dict-scan_to_dict i s.cluster_scans;
  load_all_scans = λ s.
      load_all scan_key scan_to_dict scan_from_dict scan_from_dict-scan_to_dict s.cluster_scans;
  delete_scan = λ i s. record s { cluster_scans = pop i s.cluster_scans };
  get_leader_id = λ s. s.leader_id;
  set_leader_id = λ i s. record s { leader_id = some i };
  IsStore = IsSqliteStore;
  save_node-IsStore = λ n s h. (
    save-IsTable node_key node_to_dict node_from_dict node_from_dict-node_to_dict n s.cluster_nodes
        h.0,
    h.1,
  );
  delete_node-IsStore = λ i s h. (
    pop-IsTable node_key node_to_dict node_from_dict node_from_dict-node_to_dict i s.cluster_nodes
        h.0,
    h.1,
  );
  save_scan-IsStore = λ c s h. (
    h.0,
    save-IsTable scan_key scan_to_dict scan_from_dict scan_from_dict-scan_to_dict c s.cluster_scans
        h.1,
  );
  delete_scan-IsStore = λ i s h. (
    h.0,
    pop-IsTable scan_key scan_to_dict scan_from_dict scan_from_dict-scan_to_dict i s.cluster_scans
        h.1,
  );
  set_leader_id-IsStore = λ i s h. h;
  load_node-save_node = λ i n s.
      load_one-save node_key node_to_dict node_from_dict node_from_dict-node_to_dict i n
        s.cluster_nodes;
  load_node-delete_node = λ i j s.
      load_one-pop node_key node_to_dict node_from_dict node_from_dict-node_to_dict i j
        s.cluster_nodes;
  load_node-save_scan = λ i c s. refl;
  load_node-delete_scan = λ i j s. refl;
  load_node-set_leader_id = λ i j s. refl;
  load_node_id = λ i n s h e.
      load_one_key node_key node_to_dict node_from_dict node_from_dict-node_to_dict i n
        s.cluster_nodes h.0 e;
  mem-load_all_nodes = λ i n s e.
      mem-load_all node_key node_to_dict node_from_dict node_from_dict-node_to_dict i n
        s.cluster_nodes e;
  load_node_of_mem = λ n s h m.
      load_one_of_mem node_key node_to_dict node_from_dict node_from_dict-node_to_dict n
        s.cluster_nodes h.0 m;
  load_scan-save_scan = λ i c s.
      load_one-save scan_key scan_to_dict scan_from_dict scan_from_dict-scan_to_dict i c
        s.cluster_scans;
  load_scan-delete_scan = λ i j s.
      load_one-pop scan_key scan_to_dict scan_from_dict scan_from_dict-scan_to_dict i j
        s.cluster_scans;
  load_scan-save_node = λ i n s. refl;
  load_scan-delete_node = λ i j s. refl;
  load_scan-set_leader_id = λ i j s. refl;
  load_scan_id = λ i c s h e.
      load_one_key scan_key scan_to_dict scan_from_dict scan_from_dict-scan_to_dict i c
        s.cluster_scans h.1 e;
  mem-load_all_scans = λ i c s e.
      mem-load_all scan_key scan_to_dict scan_from_dict scan_from_dict-scan_to_dict i c
        s.cluster_scans e;
  load_scan_of_mem = λ c s h m.
      load_one_of_mem scan_key scan_to_dict scan_from_dict scan_from_dict-scan_to_dict c
        s.cluster_scans h.1 m;
  get_leader_id-set_leader_id = λ i s. refl;
  get_leader_id-save_node = λ n s. refl;
  get_leader_id-delete_node = λ i s. refl;
  get_leader_id-save_scan = λ c s. refl;
  get_leader_id-delete_scan = λ i s. refl;
}
