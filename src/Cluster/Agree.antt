-- ===== src/Cluster/Agree.antt =====
-- cluster/manager.py: two state backends cannot be told apart by what is loaded from them. That a store is
-- one of its backend, `IsStore`, says of the tables of SQLite that every row can be decoded.
use pico_dome.Base.{String, List, [], ◌∷◌, ◌≡◌, ◌↔◌, Memᴰ, sym, ◌∙◌}
use pico_dome.Cluster.Node.{ClusterNode, ScanRequest}
use pico_dome.Cluster.Backend.{StateBackend}

-- A call that changes a store.
pub data Write : Type 0 where
  saves_node : ClusterNode → Write
  deletes_node : String → Write
  saves_scan : ScanRequest → Write
  deletes_scan : String → Write
  sets_leader : String → Write

unfoldable pub write : {S : Type 0} → StateBackend S → Write → S → S
write b (saves_node n) s = b.save_node n s
write b (deletes_node i) s = b.delete_node i s
write b (saves_scan c) s = b.save_scan c s
write b (deletes_scan i) s = b.delete_scan i s
write b (sets_leader i) s = b.set_leader_id i s

unfoldable pub write_all : {S : Type 0} → StateBackend S → List Write → S → S
unfolding write
write_all b [] s = s
write_all b (w ∷ ws) s = write_all b ws (write b w s)

write-IsStore :
    {S : Type 0} (b : StateBackend S) (w : Write) (s : S) → b.IsStore s → b.IsStore (write b w s)
unfolding write
write-IsStore b (saves_node n) s h = b.save_node-IsStore n s h
write-IsStore b (deletes_node i) s h = b.delete_node-IsStore i s h
write-IsStore b (saves_scan c) s h = b.save_scan-IsStore c s h
write-IsStore b (deletes_scan i) s h = b.delete_scan-IsStore i s h
write-IsStore b (sets_leader i) s h = b.set_leader_id-IsStore i s h

pub write_all-IsStore :
    {S : Type 0} (b : StateBackend S) (ws : List Write) (s : S)
    → b.IsStore s
    → b.IsStore (write_all b ws s)
unfolding write_all
write_all-IsStore b [] s h = h
write_all-IsStore b (w ∷ ws) s h = write_all-IsStore b ws (write b w s) (write-IsStore b w s h)

pub record Agree {S T : Type 0} (b : StateBackend S) (c : StateBackend T) (s : S) (t : T)
    : Type 0 where
  pub nodes : (i : String) → b.load_node i s ≡ c.load_node i t
  pub scans : (i : String) → b.load_scan i s ≡ c.load_scan i t
  pub leader : b.get_leader_id s ≡ c.get_leader_id t

module _ {S T : Type 0} (b : StateBackend S) (c : StateBackend T) where
  write-Agree : (w : Write) (s : S) (t : T) → Agree b c s t → Agree b c (write b w s) (write c w t)
  unfolding write
  write-Agree (saves_node n) s t a = record {
    nodes = λ i. cc (b.load_node-save_node i n s, c.load_node-save_node i n t, a.nodes i);
    scans = λ i. cc (b.load_scan-save_node i n s, c.load_scan-save_node i n t, a.scans i);
    leader = cc (b.get_leader_id-save_node n s, c.get_leader_id-save_node n t, a.leader);
  }
  write-Agree (deletes_node j) s t a = record {
    nodes = λ i. cc (b.load_node-delete_node i j s, c.load_node-delete_node i j t, a.nodes i);
    scans = λ i. cc (b.load_scan-delete_node i j s, c.load_scan-delete_node i j t, a.scans i);
    leader = cc (b.get_leader_id-delete_node j s, c.get_leader_id-delete_node j t, a.leader);
  }
  write-Agree (saves_scan n) s t a = record {
    nodes = λ i. cc (b.load_node-save_scan i n s, c.load_node-save_scan i n t, a.nodes i);
    scans = λ i. cc (b.load_scan-save_scan i n s, c.load_scan-save_scan i n t, a.scans i);
    leader = cc (b.get_leader_id-save_scan n s, c.get_leader_id-save_scan n t, a.leader);
  }
  write-Agree (deletes_scan j) s t a = record {
    nodes = λ i. cc (b.load_node-delete_scan i j s, c.load_node-delete_scan i j t, a.nodes i);
    scans = λ i. cc (b.load_scan-delete_scan i j s, c.load_scan-delete_scan i j t, a.scans i);
    leader = cc (b.get_leader_id-delete_scan j s, c.get_leader_id-delete_scan j t, a.leader);
  }
  write-Agree (sets_leader j) s t a = record {
    nodes = λ i. cc (b.load_node-set_leader_id i j s, c.load_node-set_leader_id i j t, a.nodes i);
    scans = λ i. cc (b.load_scan-set_leader_id i j s, c.load_scan-set_leader_id i j t, a.scans i);
    leader = cc (b.get_leader_id-set_leader_id j s, c.get_leader_id-set_leader_id j t);
  }

  Agree-after :
      (ws : List Write) (s : S) (t : T)
      → Agree b c s t
      → Agree b c (write_all b ws s) (write_all c ws t)
  unfolding write_all
  Agree-after [] s t a = a
  Agree-after (w ∷ ws) s t a = Agree-after ws (write b w s) (write c w t) (write-Agree w s t a)

  -- Two stores, each one that its backend keeps, agree on every node, every scan and the leader. Then after
  -- any sequence of writes, whichever the two backends, they still do so, each is still one that its backend
  -- keeps, and both load the same nodes and the same scans, in any order, as all that there are.
  pub write_all-Agree :
      (ws : List Write) (s : S) (t : T)
      → b.IsStore s
      → c.IsStore t
      → Agree b c s t
      → let s' = write_all b ws s in
        let t' = write_all c ws t in
        Agree b c s' t'
        × b.IsStore s'
        × c.IsStore t'
        × ((n : ClusterNode) → Memᴰ n (b.load_all_nodes s') ↔ Memᴰ n (c.load_all_nodes t'))
        × ((r : ScanRequest) → Memᴰ r (b.load_all_scans s') ↔ Memᴰ r (c.load_all_scans t'))
  write_all-Agree ws s t hs ht a =
      let s' = write_all b ws s in
      let t' = write_all c ws t in
      let same = Agree-after ws s t a in
      let ks = write_all-IsStore b ws s hs in
      let kt = write_all-IsStore c ws t ht in
      (
        same,
        ks,
        kt,
        λ n. (
          λ m.
              c.mem-load_all_nodes n.node_id n t'
                (sym (same.nodes n.node_id) ∙ b.load_node_of_mem n s' ks m),
          λ m.
              b.mem-load_all_nodes n.node_id n s'
                (same.nodes n.node_id ∙ c.load_node_of_mem n t' kt m),
        ),
        λ r. (
          λ m.
              c.mem-load_all_scans r.scan_id r t'
                (sym (same.scans r.scan_id) ∙ b.load_scan_of_mem r s' ks m),
          λ m.
              b.mem-load_all_scans r.scan_id r s'
                (same.scans r.scan_id ∙ c.load_scan_of_mem r t' kt m),
        ),
      )
