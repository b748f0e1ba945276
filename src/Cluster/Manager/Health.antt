-- ===== src/Cluster/Manager/Health.antt =====
-- cluster/manager.py: `_check_node_health` takes down only nodes whose last heartbeat is too old.
use pico_dome.Base.{
  ℕ, String, Option, none, some, Bool, true, false, ◌&&◌, List, [], ◌∷◌, ◌≡◌, ◌≢◌, refl, ◌∙◌, inl,
  inr, arith, Memᴰ, if◌then◌else◌, Bool-cases, Option-cases, All, filter, any, any_of_mem,
  mem_of_any, mem-filter, mem_of_mem-filter, All-of_mem,
}
use pico_dome.Base.Text.{str_eq, eq_iff}
use pico_dome.Base.Sort.{mem_of_mem-sort_by, mem-sort_by}
use pico_dome.Cluster.Node.{offline, is_online, ClusterNode}
use pico_dome.Cluster.Backend.{StateBackend}
use pico_dome.Cluster.State.{id_leb, list_online_nodes}
use pico_dome.Cluster.State.Frame.{status_at}
use pico_dome.Cluster.Manager.{
  ClusterManager, handle_node_failure, is_late, check_nodes, check_node_health,
}
use pico_dome.Cluster.Manager.Failover.{
  handle_node_failure-IsFailedOver, handle_node_failure-IsStore,
}

module _ {S : Type 0} (b : StateBackend S) (parse_iso_timestamp : String → Option ℕ) (now : String)
    (m : ClusterManager) where
  open b use {
    load_node, load_all_nodes, IsStore, load_node_of_mem, mem-load_all_nodes, load_node_id,
  }

  abbrev late : ClusterNode → Bool
  late = is_late parse_iso_timestamp now m

  abbrev is_hit : String → ClusterNode → Bool
  is_hit i n = str_eq n.node_id i && late n

  abbrev IsKnown : S → ClusterNode → Type 0
  IsKnown s n = status_at b n.node_id s ≢ none

  status_after :
      (a i : String) (s : S)
      → IsStore s
      → status_at b a s ≢ none
      → status_at b i (handle_node_failure b a s).0
        ≡ (if str_eq a i then some offline else status_at b i s)
  status_after a i s h k = elim (Option-cases (load_node a s)) [
    | inl e ↦ absurd (k (rw e))
    | inr (n, e) ↦
        let over = handle_node_failure-IsFailedOver b a n s h e in
        elim (Bool-cases (str_eq a i)) [
          | inl q ↦ rw (q, ← (eq_iff a i).0 q) over.is_off
          | inr q ↦ rw q (over.others i (λ same. ground (arith, eq_iff a i)))
        ]
  ]

  All-IsKnown_after :
      (a : String) (ns : List ClusterNode) (s : S)
      → IsStore s
      → status_at b a s ≢ none
      → All (IsKnown s) ns
      → All (IsKnown (handle_node_failure b a s).0) ns
  All-IsKnown_after a [] s h k all = tt
  All-IsKnown_after a (n ∷ ns) s h k all = (
    rw (status_after a n.node_id s h k) (still (str_eq a n.node_id)),
    All-IsKnown_after a ns s h k all.1,
  )
    where
      still : (t : Bool) → (if t then some offline else status_at b n.node_id s) ≢ none
      still true = λ e. cc
      still false = all.0

  check_nodes_status :
      (i : String) (ns : List ClusterNode) (s : S)
      → IsStore s
      → All (IsKnown s) ns
      → status_at b i (check_nodes b parse_iso_timestamp now m ns s)
        ≡ (if any (is_hit i) ns then some offline else status_at b i s)
  unfolding check_nodes any
  check_nodes_status i [] s h k = refl
  check_nodes_status i (n ∷ ns) s h k = elim (Bool-cases (late n)) [
    | inr q ↦ rw q (check_nodes_status i ns s h k.1 ∙ ground arith)
    | inl q ↦
        let s' = (handle_node_failure b n.node_id s).0 in
        rw q (
          check_nodes_status i ns s' (handle_node_failure-IsStore b n.node_id s h)
            (All-IsKnown_after n.node_id ns s h k.0 k.1)
          ∙ ground (arith, status_after n.node_id i s h k.0))
  ]

  -- One health check leaves a registered node offline if it was online and is late: if it is another node than
  -- the manager's own and its last heartbeat can be read and is too old. It leaves every other status as it
  -- was.
  pub check_node_health_lem :
      (i : String) (n : ClusterNode) (s : S)
      → IsStore s
      → load_node i s ≡ some n
      → status_at b i (check_node_health b parse_iso_timestamp now m s)
        ≡ (if is_online n.status && late n then some offline else some n.status)
  unfolding check_node_health list_online_nodes
  check_node_health_lem i n s h e =
      rw (check_nodes_status i ns s h known, e)
        (elim (Bool-cases (is_online n.status && late n)) [
          | inl q ↦ rw (q, hits q)
          | inr q ↦ rw (q, misses q)
        ])
    where
      online_nodes : List ClusterNode
      online_nodes = filter (λ k. is_online k.status) (load_all_nodes s)

      ns : List ClusterNode
      ns = list_online_nodes b s

      listed :
          (k : ClusterNode) → Memᴰ k ns → Memᴰ k (load_all_nodes s) × (is_online k.status ≡ true)
      listed k mem =
          mem_of_mem-filter (λ k. is_online k.status) (load_all_nodes s)
            (mem_of_mem-sort_by id_leb online_nodes mem)

      known : All (IsKnown s) ns
      known =
          All-of_mem (IsKnown s) ns
            λ k mem gone. let found = load_node_of_mem k s h (listed k mem).0 in ground arith

      hits : (is_online n.status && late n) ≡ true → any (is_hit i) ns ≡ true
      hits q =
          any_of_mem (is_hit i) ns
            (mem-sort_by id_leb online_nodes (
              mem-filter (λ k. is_online k.status) (load_all_nodes s) (mem-load_all_nodes i n s e)
                (ground arith)))
            (ground (arith, load_node_id i n s h e, eq_iff n.node_id i))

      misses : (is_online n.status && late n) ≡ false → any (is_hit i) ns ≡ false
      misses q = elim (Bool-cases (any (is_hit i) ns)) [
        | inr off ↦ off
        | inl hit ↦
            let (k, mem, both) = mem_of_any (is_hit i) ns hit in
            let (stored, on) = listed k mem in
            let found = load_node_of_mem k s h stored in
            let at_i : k.node_id ≡ i = ground (arith, eq_iff k.node_id i) in
            let same : n ≡ k = cc in
            let no_hit : (is_online k.status && late k) ≡ false = rw same at q in ground arith
      ]
