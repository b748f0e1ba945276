-- ===== src/Daemon/Memory.antt =====
-- daemon/server.py: `ScanJobStore`, the bounded store in memory.
use pico_dome.Base.{
  ℕ, ◌+◌, ◌≤◌, ◌<◌, String, Option, none, some, true, List, [], ◌∷◌, length, ltb, ◌≡◌, ◌⊎◌, refl,
  inl, inr, arith, if◌then◌else◌, Bool-cases,
}
use pico_dome.Base.Dict.{
  Dict, lookup, insert, pop, lookup-insert_self, lookup-insert, lookup-pop, lookup-cons,
  lookup-cons_cases, IsKeyed, insert-IsKeyed, pop-IsKeyed,
}
use pico_dome.Base.Text.{str_eq, eq_refl, str_leb, str_leb_total, str_leb_trans, str_leb_refl}
use pico_dome.Daemon.Job.{ScanJob, Changes, new_job, apply, newest}

pub record ScanJobStore (R : Type 0) : Type 0 where
  pub jobs : Dict (ScanJob R)
  pub max_jobs : ℕ

module _ {R : Type 0} where
  abbrev pub new_store : ℕ → ScanJobStore R
  new_store max_jobs = record { jobs = []; max_jobs = max_jobs }

  -- The entry that `min` finds by the time, the first of the oldest.
  unfoldable pub oldest_from : String → ScanJob R → Dict (ScanJob R) → String × ScanJob R
  unfolding str_leb
  oldest_from k j [] = (k, j)
  oldest_from k j ((i, h) ∷ d) =
      if str_leb j.created_at h.created_at then oldest_from k j d else oldest_from i h d

  -- `del self._jobs[oldest_key]`
  unfoldable pub drop_oldest : Dict (ScanJob R) → Dict (ScanJob R)
  unfolding oldest_from pop
  drop_oldest [] = []
  drop_oldest ((k, j) ∷ d) = pop (oldest_from k j d).0 ((k, j) ∷ d)

  unfoldable pub add :
      String → String → List String → String → ScanJobStore R → ScanJobStore R × ScanJob R
  unfolding drop_oldest insert
  add now job_id command actor s =
      let job : ScanJob R = new_job now job_id command actor in
      let jobs = insert job_id job s.jobs in
      (record s { jobs = if ltb s.max_jobs (length jobs) then drop_oldest jobs else jobs }, job)

  unfoldable pub update : String → Changes R → ScanJobStore R → ScanJobStore R × Option (ScanJob R)
  unfolding apply lookup insert
  update job_id c s = elim (lookup job_id s.jobs) [
    | none ↦ (s, none)
    | some j ↦ (record s { jobs = insert job_id (apply c j) s.jobs }, some (apply c j))
  ]

  unfoldable pub get : String → ScanJobStore R → Option (ScanJob R)
  unfolding lookup
  get job_id s = lookup job_id s.jobs

  unfoldable pub list_recent : ℕ → ScanJobStore R → List (ScanJob R)
  unfolding newest
  list_recent limit s = newest limit s.jobs

  abbrev by_id : ScanJob R → String
  by_id j = j.job_id

  length-insert-le :
      (k : String) (j : ScanJob R) (d : Dict (ScanJob R)) → length (insert k j d) ≤ length d + 1
  unfolding insert
  length-insert-le k j [] = omega arith
  length-insert-le k j ((i, h) ∷ d) = ground (arith, length-insert-le k j d)

  length-pop-le : (k : String) (d : Dict (ScanJob R)) → length (pop k d) ≤ length d
  unfolding pop
  length-pop-le k [] = omega arith
  length-pop-le k ((i, h) ∷ d) = ground (arith, length-pop-le k d)

  length-pop-lt :
      (k : String) (j : ScanJob R) (d : Dict (ScanJob R))
      → lookup k d ≡ some j
      → length (pop k d) < length d
  unfolding pop lookup
  length-pop-lt k j [] e = cc
  length-pop-lt k j ((i, h) ∷ d) e = ground (arith, length-pop-le k d, length-pop-lt k j d)

  -- A pair of the dictionary, whose time is no later than that of any other.
  abbrev pub IsOldest : String → ScanJob R → Dict (ScanJob R) → Type 0
  IsOldest k j d =
      (lookup k d ≡ some j)
      × ((i : String) (h : ScanJob R)
          → lookup i d ≡ some h
          → str_leb j.created_at h.created_at ≡ true)

  -- What holds of the pair found so far and the entries that are left.
  abbrev IsFound : String → ScanJob R → Dict (ScanJob R) → String × ScanJob R → Type 0
  IsFound k j d o =
      ((o ≡ (k, j)) ⊎ (lookup o.0 d ≡ some o.1))
      × (str_leb o.1.created_at j.created_at ≡ true)
      × ((i : String) (h : ScanJob R)
          → lookup i d ≡ some h
          → str_leb o.1.created_at h.created_at ≡ true)

  no_later :
      (t : String) {h f : ScanJob R}
      → h ≡ f
      → str_leb t h.created_at ≡ true
      → str_leb t f.created_at ≡ true
  no_later t q e = rw q at e

  oldest_from_step :
      (k i : String) (j h : ScanJob R) (d : Dict (ScanJob R))
      → oldest_from k j ((i, h) ∷ d)
        ≡ (if str_leb j.created_at h.created_at then oldest_from k j d else oldest_from i h d)
  unfolding oldest_from
  oldest_from_step k i j h d = refl

  oldest_from_lem :
      (k : String) (j : ScanJob R) (d : Dict (ScanJob R))
      → IsKeyed by_id d
      → IsFound k j d (oldest_from k j d)
  oldest_from_lem k j [] h =
      unfold oldest_from lookup in (inl refl, str_leb_refl j.created_at, λ i g e. cc)
  oldest_from_lem k j ((i, h) ∷ d) keyed = elim (Bool-cases (str_leb j.created_at h.created_at)) [
    | inl b ↦
        let found = oldest_from_lem k j d keyed.2 in
        rw (oldest_from_step, b)
          (
            later found.0,
            found.1,
            λ g f e. elim (lookup-cons_cases g i h d e) [
              | inl q ↦ no_later _ q (str_leb_trans _ _ _ found.1 b)
              | inr q ↦ found.2 g f q
            ],
          )
    | inr b ↦
        let found = oldest_from_lem i h d keyed.2 in
        rw (oldest_from_step, b)
          (
            inr (here found.0),
            str_leb_trans _ _ _ found.1 (str_leb_total j.created_at h.created_at b),
            λ g f e. elim (lookup-cons_cases g i h d e) [
              | inl q ↦ no_later _ q found.1
              | inr q ↦ found.2 g f q
            ],
          )
  ]
    where
      later :
          {o : String × ScanJob R}
          → (o ≡ (k, j)) ⊎ (lookup o.0 d ≡ some o.1)
          → (o ≡ (k, j)) ⊎ (lookup o.0 ((i, h) ∷ d) ≡ some o.1)
      later (inl e) = inl e
      later {o} (inr e) = inr (lookup-cons o.0 i h d keyed.1 e)

      here :
          {o : String × ScanJob R}
          → (o ≡ (i, h)) ⊎ (lookup o.0 d ≡ some o.1)
          → lookup o.0 ((i, h) ∷ d) ≡ some o.1
      here (inl e) = rw e (unfold lookup in rw (eq_refl i) refl)
      here {o} (inr e) = lookup-cons o.0 i h d keyed.1 e

  lookup-nil : (k : String) {j : ScanJob R} → lookup k [] ≡ some j → ⊥
  unfolding lookup
  lookup-nil k e = cc

  drop_oldest_lem :
      (d : Dict (ScanJob R)) (k : String) (j : ScanJob R)
      → IsKeyed by_id d
      → lookup k d ≡ some j
      → (o : String) × (old : ScanJob R) × (drop_oldest d ≡ pop o d) × IsOldest o old d
  drop_oldest_lem [] k j keyed e = absurd (lookup-nil k e)
  drop_oldest_lem ((i, h) ∷ d) k j keyed e =
      let found = oldest_from_lem i h d keyed.2 in
      let o = oldest_from i h d in
      (
        o.0,
        o.1,
        unfold drop_oldest in refl,
        (
          held found.0,
          λ g f q. elim (lookup-cons_cases g i h d q) [
            | inl s ↦ no_later _ s found.1
            | inr s ↦ found.2 g f s
          ],
        ),
      )
    where
      held :
          {o : String × ScanJob R}
          → (o ≡ (i, h)) ⊎ (lookup o.0 d ≡ some o.1)
          → lookup o.0 ((i, h) ∷ d) ≡ some o.1
      held (inl e) = rw e (unfold lookup in rw (eq_refl i) refl)
      held {o} (inr e) = lookup-cons o.0 i h d keyed.1 e

  -- Each job stands under its id, and there are no more of them than the bound.
  abbrev pub IsBounded : ScanJobStore R → Type 0
  IsBounded s = IsKeyed by_id s.jobs × (length s.jobs ≤ s.max_jobs)

  -- `add` keeps the store within its bound. If the store was not full, or had the id, it adds the job and
  -- changes nothing else; otherwise one job goes that no job, the new one included, is older than.
  pub add-IsBounded :
      (now job_id : String) (command : List String) (actor : String) (s : ScanJobStore R)
      → IsBounded s
      → let (s', job) = add now job_id command actor s in
        IsBounded s'
        × (((i : String) → get i s' ≡ (if str_eq job_id i then some job else get i s))
            ⊎ ((o : String) × (old : ScanJob R) × IsOldest o old (insert job_id job s.jobs)
                × ((i : String)
                    → get i s' ≡ (
                        if str_eq o i
                        then none
                        else if str_eq job_id i
                        then some job
                        else get i s))))
  unfolding add get
  add-IsBounded now job_id command actor s h =
      let job : ScanJob R = new_job now job_id command actor in
      let keyed = insert-IsKeyed by_id job_id job s.jobs refl h.0 in
      elim (Bool-cases (ltb s.max_jobs (length (insert job_id job s.jobs)))) [
        | inr b ↦ rw b ((keyed, ground (arith, b)), inl (λ i. lookup-insert job_id i job s.jobs))
        | inl b ↦
            let (o, old, e, oldest) =
              drop_oldest_lem (insert job_id job s.jobs) job_id job keyed
                (lookup-insert_self job_id job s.jobs) in
            let grown = length-insert-le job_id job s.jobs in
            rw (b, e)
              (
                (
                  pop-IsKeyed by_id o _ keyed,
                  omega (arith, grown, length-pop-lt o old _ oldest.0, h.1),
                ),
                inr (o, old, oldest, λ i. rw (lookup-pop, lookup-insert) refl),
              )
      ]
