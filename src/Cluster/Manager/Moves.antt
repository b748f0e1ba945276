-- ===== src/Cluster/Manager/Moves.antt =====
-- cluster/manager.py: the rounds of `handle_node_failure`, each of which moves one scan.
use mathlib.Core.Path.{subst}
use pico_dome.Base.{
  String, Option, none, some, false, List, [], ◌∷◌, ◌≡◌, ◌≢◌, refl, sym, ◌∙◌, ◌⊎◌, inl, inr, arith,
  Memᴰ, Bool-cases, Option-cases, mem-cons_cases, All,
}
use pico_dome.Base.Text.{str_eq, eq_iff, eq_refl}
use pico_dome.Cluster.Node.{online, ClusterNode, ScanRequest}
use pico_dome.Cluster.Backend.{StateBackend}
use pico_dome.Cluster.State.{assign_scan, fail_scan}
use pico_dome.Cluster.State.Assign.{
  IsAssigned, assign_scan_least, assign_scan-IsStore, online_of_is_online, fail_scan-IsStore,
}
use pico_dome.Cluster.State.Frame.{
  status_at, status_at-fail_scan, status_at-assign_scan, load_scan-fail_scan,
  load_scan-assign_scan_ne,
}
use pico_dome.Cluster.Manager.{redistribute}

module _ {S : Type 0} (b : StateBackend S) where
  open b use {
    save_node, load_node, load_scan, load_all_scans, IsStore, save_node-IsStore,
    load_node-save_node, load_scan-save_node, load_scan_id, load_scan_of_mem, mem-load_all_scans,
    load_node_id,
  }

  -- A scan after it was moved: it waits with no node, or it runs on a node whose status is online.
  abbrev pub IsMoved : S → Option ScanRequest → Type 0
  IsMoved s none = ⊥
  IsMoved s (some c) =
      (c.assigned_node ≡ none) × (c.status ≡ "pending")
      ⊎ ((a : String) × (c.assigned_node ≡ some a)
          × (c.status ≡ "running")
          × (status_at b a s ≡ some online))

  pub ne_of_str_eq : (i j : String) → str_eq i j ≡ false → i ≢ j
  ne_of_str_eq i j q = ground (arith, eq_iff i j)

  abbrev pub move_scan : String → S → S
  move_scan i s = (assign_scan b i (fail_scan b i s)).0

  move_scan-IsStore : (i : String) (s : S) → IsStore s → IsStore (move_scan i s)
  move_scan-IsStore i s h = assign_scan-IsStore b i (fail_scan b i s) (fail_scan-IsStore b i s h)

  status_at-move_scan :
      (j i : String) (s : S) → IsStore s → status_at b j (move_scan i s) ≡ status_at b j s
  status_at-move_scan j i s h =
      status_at-assign_scan b j i (fail_scan b i s) (fail_scan-IsStore b i s h)
      ∙ status_at-fail_scan b j i s h

  load_scan-move_scan_ne :
      (j i : String) (scan : ScanRequest) (s : S)
      → IsStore s
      → load_scan i s ≡ some scan
      → i ≢ j
      → load_scan j (move_scan i s) ≡ load_scan j s
  load_scan-move_scan_ne j i scan s h e ne =
      load_scan-assign_scan_ne b j i (fail_scan b i s) (fail_scan-IsStore b i s h) ne
      ∙ ground (arith, load_scan-fail_scan b j i scan s h e, eq_iff i j)

  -- One round of the loop moves its scan.
  move_one :
      (i : String) (scan : ScanRequest) (s : S)
      → IsStore s
      → load_scan i s ≡ some scan
      → IsMoved (move_scan i s) (load_scan i (move_scan i s))
  move_one i scan s h e =
      elim (assign_scan_least b i waiting s1 (fail_scan-IsStore b i s h) loaded refl) [
        | inl (same, _) ↦
            subst (λ r. IsMoved r.0 (load_scan i r.0)) (sym same) (rw loaded (inl (refl, refl)))
        | inr (n, assigned) ↦
            rw
              (subst
                (λ k.
                  load_scan k (move_scan i s)
                  ≡ some (record waiting { assigned_node = some n.node_id; status = "running" }))
                key assigned.running)
              (inr (n.node_id, refl, refl, on n assigned))
      ]
    where
      waiting : ScanRequest
      waiting = record scan { status = "pending"; assigned_node = none }

      s1 : S
      s1 = fail_scan b i s

      loaded : load_scan i s1 ≡ some waiting
      loaded = rw (load_scan-fail_scan b i i scan s h e, eq_refl)

      key : scan.scan_id ≡ i
      key = load_scan_id i scan s h e

      on :
          (n : ClusterNode)
          → IsAssigned b s1 waiting n (assign_scan b i s1)
          → status_at b n.node_id (move_scan i s) ≡ some online
      on n assigned =
          ground (arith, assigned.counted, online_of_is_online n.status assigned.chosen.is_on)

  -- Moving one more scan leaves a moved scan moved.
  IsMoved-move_scan :
      (j i : String) (scan : ScanRequest) (s : S)
      → IsStore s
      → load_scan i s ≡ some scan
      → IsMoved s (load_scan j s)
      → IsMoved (move_scan i s) (load_scan j (move_scan i s))
  IsMoved-move_scan j i scan s h e m = elim (Bool-cases (str_eq i j)) [
    | inl q ↦ rw (← (eq_iff i j).0 q) (move_one i scan s h e)
    | inr q ↦
        rw (load_scan-move_scan_ne j i scan s h e (ne_of_str_eq i j q)) (stays (load_scan j s) m)
  ]
    where
      stays : (o : Option ScanRequest) → IsMoved s o → IsMoved (move_scan i s) o
      stays none k = k
      stays (some c) (inl k) = inl k
      stays (some c) (inr (a, u, t, on)) = inr (a, u, t, status_at-move_scan a i s h ∙ on)

  abbrev pub IsKnown : S → ScanRequest → Type 0
  IsKnown s c = load_scan c.scan_id s ≢ none

  known_after :
      (j i : String) (scan : ScanRequest) (s : S)
      → IsStore s
      → load_scan i s ≡ some scan
      → load_scan j s ≢ none
      → load_scan j (move_scan i s) ≢ none
  known_after j i scan s h e k = elim (Bool-cases (str_eq i j)) [
    | inl q ↦ λ gone. impossible (rw (← (eq_iff i j).0 q) at gone)
    | inr q ↦ rw (load_scan-move_scan_ne j i scan s h e (ne_of_str_eq i j q)) k
  ]
    where
      impossible : load_scan i (move_scan i s) ≡ none → ⊥
      impossible gone = rw gone at (move_one i scan s h e)

  abbrev pub move_scans : List ScanRequest → S → S
  move_scans = redistribute b

  pub move_scans-IsStore : (cs : List ScanRequest) (s : S) → IsStore s → IsStore (move_scans cs s)
  unfolding redistribute
  move_scans-IsStore [] s h = h
  move_scans-IsStore (c ∷ cs) s h = move_scans-IsStore cs _ (move_scan-IsStore c.scan_id s h)

  pub status_at-move_scans :
      (j : String) (cs : List ScanRequest) (s : S)
      → IsStore s
      → status_at b j (move_scans cs s) ≡ status_at b j s
  unfolding redistribute
  status_at-move_scans j [] s h = refl
  status_at-move_scans j (c ∷ cs) s h =
      status_at-move_scans j cs (move_scan c.scan_id s) (move_scan-IsStore c.scan_id s h)
      ∙ status_at-move_scan j c.scan_id s h

  All-IsKnown_after :
      (i : String) (scan : ScanRequest) (cs : List ScanRequest) (s : S)
      → IsStore s
      → load_scan i s ≡ some scan
      → All (IsKnown s) cs
      → All (IsKnown (move_scan i s)) cs
  All-IsKnown_after i scan [] s h e k = tt
  All-IsKnown_after i scan (c ∷ cs) s h e k =
      (known_after c.scan_id i scan s h e k.0, All-IsKnown_after i scan cs s h e k.1)

  known_scan :
      (c : ScanRequest) (s : S)
      → IsKnown s c
      → (scan : ScanRequest) × (load_scan c.scan_id s ≡ some scan)
  known_scan c s k = elim (Option-cases (load_scan c.scan_id s)) [
    | inl e ↦ absurd (k e)
    | inr found ↦ found
  ]

  pub move_scans-IsMoved :
      (j : String) (cs : List ScanRequest) (s : S)
      → IsStore s
      → All (IsKnown s) cs
      → ((c : ScanRequest) × Memᴰ c cs × (c.scan_id ≡ j)) ⊎ IsMoved s (load_scan j s)
      → IsMoved (move_scans cs s) (load_scan j (move_scans cs s))
  unfolding redistribute
  move_scans-IsMoved j [] s h k (inl (c, m, _)) = elim m [ ]
  move_scans-IsMoved j [] s h k (inr m) = m
  move_scans-IsMoved j (c ∷ cs) s h k which =
      let (scan, e) = known_scan c s k.0 in
      move_scans-IsMoved j cs (move_scan c.scan_id s) (move_scan-IsStore c.scan_id s h)
        (All-IsKnown_after c.scan_id scan cs s h e k.1) (next scan e which)
    where
      next :
          (scan : ScanRequest)
          → load_scan c.scan_id s ≡ some scan
          → ((d : ScanRequest) × Memᴰ d (c ∷ cs) × (d.scan_id ≡ j)) ⊎ IsMoved s (load_scan j s)
          → ((d : ScanRequest) × Memᴰ d cs × (d.scan_id ≡ j))
            ⊎ IsMoved (move_scan c.scan_id s) (load_scan j (move_scan c.scan_id s))
      next scan e (inr m) = inr (IsMoved-move_scan j c.scan_id scan s h e m)
      next scan e (inl (d, m, q)) = elim (mem-cons_cases m) [
        | inr n ↦ inl (d, n, q)
        | inl p ↦ inr (rw (← q, p) (move_one c.scan_id scan s h e))
      ]

  pub load_scan-move_scans_ne :
      (j : String) (cs : List ScanRequest) (s : S)
      → IsStore s
      → All (IsKnown s) cs
      → ((c : ScanRequest) → Memᴰ c cs → c.scan_id ≢ j)
      → load_scan j (move_scans cs s) ≡ load_scan j s
  unfolding redistribute
  load_scan-move_scans_ne j [] s h k ne = refl
  load_scan-move_scans_ne j (c ∷ cs) s h k ne =
      let (scan, e) = known_scan c s k.0 in
      load_scan-move_scans_ne j cs (move_scan c.scan_id s) (move_scan-IsStore c.scan_id s h)
        (All-IsKnown_after c.scan_id scan cs s h e k.1) (λ d m. ne d (Memᴰ.tail m))
      ∙ load_scan-move_scan_ne j c.scan_id scan s h e (ne c (Memᴰ.head refl))
