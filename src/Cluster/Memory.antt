-- ===== src/Cluster/Memory.antt =====
-- cluster/manager.py: `MemoryStateBackend`. The code hands out references to the stored objects;
-- every caller saves an object again under its own id right after writing to it, so a value is
-- enough here.
use pico_dome.Base.{String, Option, none, some, [], refl}
use pico_dome.Base.Dict.{
  Dict, lookup, insert, pop, values, lookup-insert, lookup-pop, IsKeyed, insert-IsKeyed,
  pop-IsKeyed, key_of_lookup, lookup_of_mem, mem_of_lookup,
}
use pico_dome.Cluster.Node.{ClusterNode, ScanRequest}
use pico_dome.Cluster.Backend.{StateBackend}

pub record MemoryStore : Type 0 where
  pub nodes : Dict ClusterNode
  pub scans : Dict ScanRequest
  pub leader_id : Option String

abbrev pub empty_store : MemoryStore
empty_store = record { nodes = []; scans = []; leader_id = none }

abbrev node_key : ClusterNode → String
node_key n = n.node_id

abbrev scan_key : ScanRequest → String
scan_key c = c.scan_id

abbrev pub IsMemoryStore : MemoryStore → Type 0
IsMemoryStore s = IsKeyed node_key s.nodes × IsKeyed scan_key s.scans

abbrev pub memory_backend : StateBackend MemoryStore
memory_backend = record {
  save_node = λ n s. record s { nodes = insert n.node_id n s.nodes };
  load_node = λ i s. lookup i s.nodes;
  load_all_nodes = λ s. values s.nodes;
  delete_node = λ i s. record s { nodes = pop i s.nodes };
  save_scan = λ c s. record s { scans = insert c.scan_id c s.scans };
  load_scan = λ i s. lookup i s.scans;
  load_all_scans = λ s. values s.scans;
  delete_scan = λ i s. record s { scans = pop i s.scans };
  get_leader_id = λ s. s.leader_id;
  set_leader_id = λ i s. record s { leader_id = some i };
  IsStore = IsMemoryStore;
  save_node-IsStore = λ n s h. (insert-IsKeyed node_key n.node_id n s.nodes refl h.0, h.1);
  delete_node-IsStore = λ i s h. (pop-IsKeyed node_key i s.nodes h.0, h.1);
  save_scan-IsStore = λ c s h. (h.0, insert-IsKeyed scan_key c.scan_id c s.scans refl h.1);
  delete_scan-IsStore = λ i s h. (h.0, pop-IsKeyed scan_key i s.scans h.1);
  set_leader_id-IsStore = λ i s h. h;
  load_node-save_node = λ i n s. lookup-insert n.node_id i n s.nodes;
  load_node-delete_node = λ i j s. lookup-pop j i s.nodes;
  load_node-save_scan = λ i c s. refl;
  load_node-delete_scan = λ i j s. refl;
  load_node-set_leader_id = λ i j s. refl;
  load_node_id = λ i n s h e. key_of_lookup node_key i s.nodes h.0 e;
  mem-load_all_nodes = λ i n s e. mem_of_lookup i s.nodes e;
  load_node_of_mem = λ n s h m. lookup_of_mem node_key s.nodes h.0 m;
  load_scan-save_scan = λ i c s. lookup-insert c.scan_id i c s.scans;
  load_scan-delete_scan = λ i j s. lookup-pop j i s.scans;
  load_scan-save_node = λ i n s. refl;
  load_scan-delete_node = λ i j s. refl;
  load_scan-set_leader_id = λ i j s. refl;
  load_scan_id = λ i c s h e. key_of_lookup scan_key i s.scans h.1 e;
  mem-load_all_scans = λ i c s e. mem_of_lookup i s.scans e;
  load_scan_of_mem = λ c s h m. lookup_of_mem scan_key s.scans h.1 m;
  get_leader_id-set_leader_id = λ i s. refl;
  get_leader_id-save_node = λ n s. refl;
  get_leader_id-delete_node = λ i s. refl;
  get_leader_id-save_scan = λ c s. refl;
  get_leader_id-delete_scan = λ i s. refl;
}
