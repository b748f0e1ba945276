-- ===== src/Tenant/Isolation.antt =====
-- tenant/store.py: that the calls of one tenant neither give nor change the jobs of another.
use pico_dome.Base.{
  ℕ, String, Option, none, some, true, false, List, [], ◌∷◌, All, All-of_mem, filter, take,
  mem_of_mem-take, mem_of_mem-filter, ◌≡◌, ◌⊎◌, refl, inl, inr, arith, sym, ap, ◌∙◌, if◌then◌else◌,
  Bool-cases, Option-cases,
}
use pico_dome.Base.Dict.{Dict, lookup, insert, lookup-insert, lookup-insert_self}
use pico_dome.Base.Text.{str_eq, eq_iff}
use pico_dome.Daemon.Job.{ScanJob, Changes, no_changes, new_job, apply}
use pico_dome.Daemon.Persistent.{
  JobFormat, PersistentScanJobStore, ensure_loaded, rewrite_disk, finish, tenant_id-finish_at,
}
use pico_dome.Daemon.Persistent
use pico_dome.Daemon.View.{jobs_of, ensured, ensure_loaded-loaded, jobs-add, jobs-update}
use pico_dome.Tenant.Registry.{TenantId, TextRules, normalized}
use pico_dome.Tenant.Store.{owner_of, owner, is_of, add, get, update, list_recent}

-- A call of a tenant that changes the store, at a time.
pub data TenantCall (R : Type 0) : Type 0 where
  adds : String → String → List String → String → TenantCall R
  updates : String → String → Changes R → TenantCall R

module _ {R Line : Type 0} (f : JobFormat R Line) (rules : TextRules) where
  unfoldable pub run_as :
      TenantId → List (TenantCall R) → PersistentScanJobStore R Line → PersistentScanJobStore R Line
  unfolding add update
  run_as u [] s = s
  run_as u (adds now job_id command actor ∷ calls) s =
      run_as u calls (add f rules now job_id command actor u s).0
  run_as u (updates now job_id c ∷ calls) s = run_as u calls (update f rules now job_id u c s).0

  -- What `get` finds of a job for a tenant.
  owned : TenantId → Option (ScanJob R) → Option (ScanJob R)
  owned t none = none
  owned t (some j) = if is_of f rules t j then some j else none

  get_lem :
      (i : String) (t : TenantId) (s : PersistentScanJobStore R Line)
      → get f rules i t s ≡ (ensure_loaded f s, owned t (lookup i (jobs_of f s)))
  unfolding get owned Persistent.get
  get_lem i t s = elim (Option-cases (lookup i (jobs_of f s))) [
    | inl e ↦ rw (get, e) refl
    | inr (j, e) ↦ elim (Bool-cases (is_of f rules t j)) [
      | inl b ↦ rw (get, e, b) refl
      | inr b ↦ rw (get, e, b) refl
    ]
  ]

  get-owned :
      (i : String) (t : TenantId) (s : PersistentScanJobStore R Line)
      → (get f rules i t s).1 ≡ owned t (lookup i (jobs_of f s))
  get-owned i t s = ap (λ p. p.1) (get_lem i t s)

  update_lem :
      (now job_id : String) (u : TenantId) (c : Changes R) (s : PersistentScanJobStore R Line)
      → update f rules now job_id u c s
        ≡ elim (owned u (lookup job_id (jobs_of f s)))
            as (λ _. PersistentScanJobStore R Line × Option (ScanJob R)) [
              | none ↦ (ensure_loaded f s, none)
              | some j ↦ Persistent.update f now job_id c (ensure_loaded f s)
            ]
  unfolding update
  update_lem now job_id u c s =
      ap
        (λ p. elim p.1 as (λ _. PersistentScanJobStore R Line × Option (ScanJob R)) [
          | none ↦ (p.0, none)
          | some j ↦ Persistent.update f now job_id c p.0
        ])
        (get_lem job_id u s)

  lookup-insert_twice :
      (k i : String) (a b : ScanJob R) (d : Dict (ScanJob R))
      → lookup i (insert k b (insert k a d)) ≡ lookup i (insert k b d)
  lookup-insert_twice k i a b d =
      ground
        (arith, lookup-insert k i b (insert k a d), lookup-insert k i a d, lookup-insert k i b d)

  -- `update` changes nothing, or a job of the tenant's.
  update-jobs :
      (now job_id : String) (u : TenantId) (c : Changes R) (s : PersistentScanJobStore R Line)
      → (jobs_of f (update f rules now job_id u c s).0 ≡ jobs_of f s)
        ⊎ ((j : ScanJob R) × (lookup job_id (jobs_of f s) ≡ some j)
            × (is_of f rules u j ≡ true)
            × (jobs_of f (update f rules now job_id u c s).0
                ≡ insert job_id (finish now c (apply c j)) (jobs_of f s)))
  unfolding owned
  update-jobs now job_id u c s =
      let again = ap (λ x. x.jobs) (ensure_loaded-loaded f (ensure_loaded f s) (ensured f s)) in
      elim (Option-cases (lookup job_id (jobs_of f s))) [
        | inl e ↦ inl (rw (update_lem, e) again)
        | inr (j, e) ↦ elim (Bool-cases (is_of f rules u j)) [
          | inr b ↦ inl (rw (update_lem, e, b) again)
          | inl b ↦ inr (
            j,
            e,
            b,
            rw (update_lem, e, b)
                (jobs-update f now job_id c (ensure_loaded f s) (ap (lookup job_id) again ∙ e)
                  ∙ ap (insert job_id (finish now c (apply c j))) again),
          )
        ]
      ]

  -- The call is not an `add` with an id of the tenant's, nor does it give a job to another tenant.
  abbrev pub IsForeign : TenantId → PersistentScanJobStore R Line → TenantCall R → Type 0
  IsForeign t s (adds now job_id command actor) = (get f rules job_id t s).1 ≡ none
  IsForeign t s (updates now job_id c) = c.tenant_id ≡ none

  foreign :
      (t : TenantId) (calls : List (TenantCall R)) (s s' : PersistentScanJobStore R Line)
      → ((i : String) → (get f rules i t s').1 ≡ (get f rules i t s).1)
      → All (IsForeign t s) calls
      → All (IsForeign t s') calls
  foreign t [] s s' same h = tt
  foreign t (adds now job_id command actor ∷ calls) s s' same h =
      (same job_id ∙ h.0, foreign t calls s s' same h.1)
  foreign t (updates now job_id c ∷ calls) s s' same h = (h.0, foreign t calls s s' same h.1)

  module _ (t u : TenantId)
      (differ : str_eq (normalized rules u) (normalized rules t) ≡ false) where
    -- A job of the one tenant is put in, where no job of the other is.
    owned-insert :
        (k i : String) (j : ScanJob R) (d : Dict (ScanJob R))
        → is_of f rules t j ≡ false
        → owned t (lookup k d) ≡ none
        → owned t (lookup i (insert k j d)) ≡ owned t (lookup i d)
    unfolding owned
    owned-insert k i j d n h = elim (Bool-cases (str_eq k i)) [
      | inl b ↦
          let same : k ≡ i = (eq_iff k i).0 b in
          rw (lookup-insert, b, n) (sym (ap (λ x. owned t (lookup x d)) (sym same) ∙ h))
      | inr b ↦ rw (lookup-insert, b) refl
    ]

    apart_of : (j : ScanJob R) → is_of f rules u j ≡ true → is_of f rules t j ≡ false
    apart_of j own = ground (
      arith,
      differ,
      own,
      eq_iff (owner j) (normalized rules u),
      eq_iff (owner j) (normalized rules t),
      eq_iff (normalized rules u) (normalized rules t),
    )

    add-keeps :
        (now job_id : String) (command : List String) (actor : String)
        (s : PersistentScanJobStore R Line) (i : String)
        → (get f rules job_id t s).1 ≡ none
        → (get f rules i t (add f rules now job_id command actor u s).0).1 ≡ (get f rules i t s).1
    unfolding add apply
    add-keeps now job_id command actor s i h =
        let job : ScanJob R = new_job now job_id command actor in
        let tag : Changes R = record no_changes { tenant_id = some (normalized rules u) } in
        let tagged = finish now tag (apply tag job) in
        let added = jobs-add f now job_id command actor s in
        let there = ap (lookup job_id) added ∙ lookup-insert_self job_id job (jobs_of f s) in
        let jobs =
          jobs-update f now job_id tag (Persistent.add f now job_id command actor s).0 there in
        get-owned i t (add f rules now job_id command actor u s).0
        ∙ ap (λ d. owned t (lookup i d)) (jobs ∙ ap (insert job_id tagged) added)
        ∙ ap (owned t) (lookup-insert_twice job_id i job tagged (jobs_of f s))
        ∙ owned-insert job_id i tagged (jobs_of f s) differ (sym (get-owned job_id t s) ∙ h)
        ∙ sym (get-owned i t s)

    update-keeps :
        (now job_id : String) (c : Changes R) (s : PersistentScanJobStore R Line) (i : String)
        → c.tenant_id ≡ none
        → (get f rules i t (update f rules now job_id u c s).0).1 ≡ (get f rules i t s).1
    update-keeps now job_id c s i h =
        get-owned i t (update f rules now job_id u c s).0
        ∙ elim (update-jobs now job_id u c s) [
          | inl e ↦ ap (λ d. owned t (lookup i d)) e
          | inr (j, e, own, jobs) ↦
              let apart = apart_of j own in
              ap (λ d. owned t (lookup i d)) jobs
              ∙ owned-insert job_id i (finish now c (apply c j)) (jobs_of f s) (given_kept j apart)
                  (ap (owned t) e ∙ owned_none j apart)
        ]
        ∙ sym (get-owned i t s)
      where
        same : (j : ScanJob R) → (apply c j).tenant_id ≡ j.tenant_id
        same j = unfold apply in rw h refl

        given_kept :
            (j : ScanJob R)
            → is_of f rules t j ≡ false
            → is_of f rules t (finish now c (apply c j)) ≡ false
        given_kept j apart =
            ap (λ x. str_eq (owner_of x) (normalized rules t))
              (tenant_id-finish_at now c.status (apply c j) ∙ same j)
            ∙ apart

        owned_none : (j : ScanJob R) → is_of f rules t j ≡ false → owned t (some j) ≡ none
        owned_none j apart = unfold owned in rw apart refl

    -- A tenant calls `add` and `update` any number of times, never `add` with the id of a job of another
    -- tenant, nor `update` with a tenant. Then what `get` gives the other tenant for any id is unchanged.
    pub run_as_isolated :
        (calls : List (TenantCall R)) (s : PersistentScanJobStore R Line)
        → All (IsForeign t s) calls
        → (i : String) → (get f rules i t (run_as u calls s)).1 ≡ (get f rules i t s).1
    unfolding run_as
    run_as_isolated [] s h i = refl
    run_as_isolated (adds now job_id command actor ∷ calls) s h i =
        let kept = add-keeps now job_id command actor s in
        run_as_isolated calls _ (foreign t calls s _ (λ k. kept k h.0) h.1) i ∙ kept i h.0
    run_as_isolated (updates now job_id c ∷ calls) s h i =
        let kept = update-keeps now job_id c s in
        run_as_isolated calls _ (foreign t calls s _ (λ k. kept k h.0) h.1) i ∙ kept i h.0

  owned_own :
      (t : TenantId) (o : Option (ScanJob R)) (j : ScanJob R)
      → owned t o ≡ some j
      → is_of f rules t j ≡ true
  unfolding owned
  owned_own t none j e = cc
  owned_own t (some k) j e = elim (Bool-cases (is_of f rules t k)) [
    | inl b ↦ let same : k ≡ j = some_inj (rw b at e) in ap (is_of f rules t) (sym same) ∙ b
    | inr b ↦ absurd (none_of_some (rw b at e))
  ]
    where
      some_inj : some k ≡ some j → k ≡ j
      some_inj q = cc

      none_of_some : none ≡ some j → ⊥
      none_of_some q = cc

  -- A job that `get` gives a tenant, and each that `list_recent` lists for it, is its own.
  pub get_own :
      (t : TenantId) (s : PersistentScanJobStore R Line)
      → ((i : String) (j : ScanJob R) → (get f rules i t s).1 ≡ some j → is_of f rules t j ≡ true)
        × ((limit : ℕ) → All (λ j. is_of f rules t j ≡ true) (list_recent f rules t limit s).1)
  unfolding list_recent
  get_own t s = (
    λ i j e. owned_own t (lookup i (jobs_of f s)) j (sym (get-owned i t s) ∙ e),
    λ limit.
        let all = (Persistent.list_recent f 1000 s).1 in
        All-of_mem (λ j. is_of f rules t j ≡ true) (take limit (filter (is_of f rules t) all))
          (λ j m. (mem_of_mem-filter (is_of f rules t) all (mem_of_mem-take limit _ m)).1),
  )
