-- ===== src/Cluster/Manager/Lifecycle.antt =====
-- cluster/manager.py: `stop` deregisters the node, and leaves it the leader only of an empty cluster.
use pico_dome.Base.{
  String, Option, none, some, true, false, ◌≡◌, refl, ◌∙◌, inl, inr, arith, Bool-cases,
  Option-cases,
}
use pico_dome.Base.Text.{str_eq, eq_iff, eq_refl}
use pico_dome.Cluster.Node.{NodeStatus, draining, offline, ClusterNode}
use pico_dome.Cluster.Backend.{StateBackend}
use pico_dome.Cluster.State.{elect_leader}
use pico_dome.Cluster.State.Assign.{NoneOnline}
use pico_dome.Cluster.State.Leader.{elect_leader_lowest}
use pico_dome.Cluster.Manager.{ClusterManager, save_status, reelect, stop}

module _ {S : Type 0} (b : StateBackend S) where
  open b use {
    save_node, load_node, delete_node, IsStore, save_node-IsStore, delete_node-IsStore,
    load_node-delete_node, load_node-set_leader_id, get_leader_id,
  }

  load_node-elect_leader :
      (i : String) (s : S) → IsStore s → load_node i (elect_leader b s).0 ≡ load_node i s
  load_node-elect_leader i s h = elim (elect_leader_lowest b s h) [
    | inl (e, _) ↦ rw e
    | inr (l, e, _, _) ↦ rw e (load_node-set_leader_id i l s)
  ]

  load_node-reelect :
      (i a : String) (s : S) → IsStore s → load_node i (reelect b a s) ≡ load_node i s
  unfolding reelect
  load_node-reelect i a s h = elim (Option-cases (get_leader_id s)) [
    | inl e ↦ rw (e, reelect) (load_node-elect_leader i s h)
    | inr (l, e) ↦ elim (Bool-cases (str_eq l a)) [
      | inl q ↦ rw (e, reelect, q) (load_node-elect_leader i s h)
      | inr q ↦ rw (e, reelect, q)
    ]
  ]

  NoneOnline-reelect :
      (a : String) (s : S) → IsStore s → NoneOnline b s → NoneOnline b (reelect b a s)
  NoneOnline-reelect a s h off i m e = off i m (rw (load_node-reelect i a s h) at e)

  -- An unregistered node is left as the leader by an election only if no node is online.
  elect_leader_ne :
      (a : String) (s : S)
      → IsStore s
      → load_node a s ≡ none
      → get_leader_id (elect_leader b s).0 ≡ some a
      → NoneOnline b s
  elect_leader_ne a s h gone lead = elim (elect_leader_lowest b s h) [
    | inl (_, off) ↦ off
    | inr (l, _, e, low) ↦ ground (arith, low.found)
  ]

  reelect_ne :
      (a : String) (s : S)
      → IsStore s
      → load_node a s ≡ none
      → get_leader_id (reelect b a s) ≡ some a
      → NoneOnline b s
  unfolding reelect
  reelect_ne a s h gone lead = elim (Option-cases (get_leader_id s)) [
    | inl e ↦ elect_leader_ne a s h gone (rw (e, reelect) at lead)
    | inr (l, e) ↦ elim (Bool-cases (str_eq l a)) [
      | inl q ↦ elect_leader_ne a s h gone (rw (e, reelect, q) at lead)
      | inr q ↦ ground (arith, eq_iff l a, rw (e, reelect, q) at lead)
    ]
  ]

  save_status-IsStore :
      (o : Option ClusterNode) (t : NodeStatus) (s : S) → IsStore s → IsStore (save_status b o t s)
  unfolding save_status
  save_status-IsStore none t s h = h
  save_status-IsStore (some n) t s h = save_node-IsStore _ s h

  -- When a running manager stops, whatever the other threads do to the store while it waits, its
  -- node is no longer registered, and it is left as the leader only if no node is online.
  pub stop_deregisters :
      (others : S → S) (m : ClusterManager) (s : S)
      → ((t : S) → IsStore t → IsStore (others t))
      → IsStore s
      → m.running ≡ true
      → let (m', s') = stop b others m s in
        (m'.running ≡ false)
        × (load_node m.node_id s' ≡ none)
        × (get_leader_id s' ≡ some m.node_id → NoneOnline b s')
  unfolding stop
  stop_deregisters others m s keeps h r =
      let node = load_node m.node_id s in
      let s1 = others (save_status b node draining s) in
      let s2 = save_status b node offline s1 in
      let s3 = delete_node m.node_id s2 in
      let h1 = keeps (save_status b node draining s) (save_status-IsStore node draining s h) in
      let h2 = save_status-IsStore node offline s1 h1 in
      let h3 = delete_node-IsStore m.node_id s2 h2 in
      let gone : load_node m.node_id s3 ≡ none = rw (load_node-delete_node, eq_refl) in
      rw r (
        refl,
        load_node-reelect m.node_id m.node_id s3 h3 ∙ gone,
        λ lead. NoneOnline-reelect m.node_id s3 h3 (reelect_ne m.node_id s3 h3 gone lead),
      )
