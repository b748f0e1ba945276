-- ===== src/Daemon/Restart.antt =====
-- daemon/store.py: that a store which is started on the file of another has the jobs of the other.
use pico_dome.Base.{
  some_injective, ℕ, ◌≤◌, ◌<◌, String, Option, none, some, true, false, List, [], ◌∷◌, ◌++◌, map,
  length, ltb, All, All-mem, All-of_mem, mem_of_mem-take, ◌≡◌, ◌⊎◌, refl, inl, inr, arith, ap, ◌∙◌,
  Bool-cases,
}
use mathlib.Core.List.{append-nil, append_assoc}
use pico_dome.Base.Dict.{Dict, lookup, insert, values, IsKeyed, insert-IsKeyed}
use pico_dome.Base.Sort.{mem_of_mem-sort_by}
use pico_dome.Base.Text.{str_eq, eq_iff, eq_refl}
use pico_dome.Daemon.Job.{ScanJob, not_older, newest}
use pico_dome.Daemon.Persistent.{
  Loaded, invalid_json, no_job, job_object, JobFormat, PersistentScanJobStore, new_store, dict_from,
  read_jobs, compact, load_from_disk, ensure_loaded, max_file_size,
}

abbrev pub lines_of : {Line : Type 0} → Option (List Line) → List Line
lines_of none = []
lines_of (some lines) = lines

module _ {R : Type 0} where
  abbrev pub by_id : ScanJob R → String
  by_id j = j.job_id

  abbrev pub IsNamed : ScanJob R → Type 0
  IsNamed j = str_eq j.job_id "" ≡ false

  -- The values stand under their ids, and no id is empty.
  abbrev pub IsJobs : Dict (ScanJob R) → Type 0
  IsJobs d = IsKeyed by_id d × All IsNamed (values d)

  pub values-insert :
      (k : String) (j : ScanJob R) (d : Dict (ScanJob R))
      → IsNamed j
      → All IsNamed (values d)
      → All IsNamed (values (insert k j d))
  unfolding insert values
  values-insert k j [] n h = (n, tt)
  values-insert k j ((i, w) ∷ d) n h = elim (Bool-cases (str_eq i k)) [
    | inl b ↦ rw b (n, h.1)
    | inr b ↦ rw b (h.0, values-insert k j d n h.1)
  ]

  pub insert-IsJobs :
      (j : ScanJob R) (d : Dict (ScanJob R)) → IsNamed j → IsJobs d → IsJobs (insert j.job_id j d)
  insert-IsJobs j d n h =
      (insert-IsKeyed by_id j.job_id j d refl h.0, values-insert j.job_id j d n h.1)

  dict_from-IsJobs :
      (js : List (ScanJob R)) (d : Dict (ScanJob R))
      → All IsNamed js
      → IsJobs d
      → IsJobs (dict_from d js)
  unfolding dict_from
  dict_from-IsJobs [] d n h = h
  dict_from-IsJobs (j ∷ js) d n h =
      dict_from-IsJobs js (insert j.job_id j d) n.1 (insert-IsJobs j d n.0 h)

  insert-new :
      (k : String) (j : ScanJob R) (d : Dict (ScanJob R))
      → lookup k d ≡ none
      → insert k j d ≡ d ++ ((k, j) ∷ [])
  unfolding insert lookup
  insert-new k j [] e = refl
  insert-new k j ((i, w) ∷ d) e = ground (arith, insert-new k j d)

  lookup-append_some :
      (k : String) (j : ScanJob R) (d r : Dict (ScanJob R))
      → lookup k (d ++ ((k, j) ∷ r)) ≡ none
      → ⊥
  unfolding lookup
  lookup-append_some k j [] r e = ground (arith, eq_refl k)
  lookup-append_some k j ((i, w) ∷ d) r e = ground (arith, lookup-append_some k j d r)

  lookup-before :
      (k : String) (j : ScanJob R) (d r : Dict (ScanJob R))
      → IsKeyed by_id (d ++ ((k, j) ∷ r))
      → lookup k d ≡ none
  unfolding lookup
  lookup-before k j [] r h = refl
  lookup-before k j ((i, w) ∷ d) r h =
      ground (arith, eq_iff i k, lookup-append_some k j d r, h.1, lookup-before k j d r h.2)

  key-before :
      (k : String) (j : ScanJob R) (d r : Dict (ScanJob R))
      → IsKeyed by_id (d ++ ((k, j) ∷ r))
      → j.job_id ≡ k
  key-before k j [] r h = h.0
  key-before k j ((i, w) ∷ d) r h = key-before k j d r h.2

  -- The jobs of a dictionary make the dictionary again.
  pub dict_from-values :
      (d r : Dict (ScanJob R)) → IsKeyed by_id (d ++ r) → dict_from d (values r) ≡ d ++ r
  unfolding dict_from values
  dict_from-values d [] h = rw (append-nil d) refl
  dict_from-values d ((k, j) ∷ r) h =
      let next = dict_from-values (d ++ ((k, j) ∷ [])) r (rw append_assoc h) in
      let same = key-before k j d r h in
      let absent = ap (λ x. lookup x d) same ∙ lookup-before k j d r h in
      ap (λ x. dict_from x (values r)) (insert-new j.job_id j d absent)
      ∙ ap (λ x. dict_from (d ++ ((x, j) ∷ [])) (values r)) same
      ∙ next
      ∙ append_assoc d ((k, j) ∷ []) r

Loaded-cases :
    {R : Type 0} (l : Loaded R)
    → (l ≡ invalid_json) ⊎ (l ≡ no_job) ⊎ ((j : ScanJob R) × (l ≡ job_object j))
Loaded-cases invalid_json = inl refl
Loaded-cases no_job = inr (inl refl)
Loaded-cases (job_object j) = inr (inr (j, refl))

module _ {R Line : Type 0} (f : JobFormat R Line) where
  -- A dumped job is a line with no white space around it, from which `json.loads` gets the job back.
  pub record IsJobFormat : Type 0 where
    pub loads-dumps : (j : ScanJob R) → f.loads (f.dumps j) ≡ job_object j
    pub strip-dumps : (j : ScanJob R) → f.strip (f.dumps j) ≡ f.dumps j
    pub dumps_nonempty : (j : ScanJob R) → f.is_empty (f.dumps j) ≡ false

  module _ (laws : IsJobFormat) where
    read_jobs-dumps :
        (j : ScanJob R) (d : Dict (ScanJob R)) (lines : List Line)
        → IsNamed j
        → read_jobs f d (f.dumps j ∷ lines) ≡ read_jobs f (insert j.job_id j d) lines
    unfolding read_jobs
    read_jobs-dumps j d lines n =
        rw (laws.strip-dumps, laws.dumps_nonempty, laws.loads-dumps, n) refl

    pub read_jobs-map :
        (js : List (ScanJob R)) (d : Dict (ScanJob R))
        → All IsNamed js
        → read_jobs f d (map f.dumps js) ≡ some (dict_from d js)
    unfolding dict_from
    read_jobs-map [] d n = unfold read_jobs in refl
    read_jobs-map (j ∷ js) d n =
        read_jobs-dumps j d (map f.dumps js) n.0 ∙ read_jobs-map js (insert j.job_id j d) n.1

    pub read_jobs-append :
        (j : ScanJob R) (d : Dict (ScanJob R)) (lines : List Line) {r : Dict (ScanJob R)}
        → IsNamed j
        → read_jobs f d lines ≡ some r
        → read_jobs f d (lines ++ (f.dumps j ∷ [])) ≡ some (insert j.job_id j r)
    unfolding read_jobs
    read_jobs-append j d [] {r} n h =
        read_jobs-dumps j d [] n
        ∙ ap (λ x. some (insert j.job_id j x)) (some_injective {a = d} {b = r} h)
    read_jobs-append j d (line ∷ lines) {r} n h = elim (Bool-cases (f.is_empty (f.strip line))) [
      | inl b ↦ rw b (read_jobs-append j d lines n (rw b at h))
      | inr b ↦ elim (Loaded-cases (f.loads (f.strip line))) [
        | inl e ↦ rw (b, e) (read_jobs-append j d lines n (rw (b, e) at h))
        | inr (inl e) ↦ let none_some : none ≡ some r = rw (b, e) at h in cc
        | inr (inr (i, e)) ↦ elim (Bool-cases (str_eq i.job_id "")) [
          | inl c ↦ rw (b, e, c) (read_jobs-append j d lines n (rw (b, e, c) at h))
          | inr c ↦
              rw (b, e, c) (read_jobs-append j (insert i.job_id i d) lines n (rw (b, e, c) at h))
        ]
      ]
    ]

  read_jobs-IsJobs :
      (lines : List Line) (d : Dict (ScanJob R)) {r : Dict (ScanJob R)}
      → IsJobs d
      → read_jobs f d lines ≡ some r
      → IsJobs r
  unfolding read_jobs
  read_jobs-IsJobs [] d {r} h e = rw (some_injective {a = d} {b = r} e) at h
  read_jobs-IsJobs (line ∷ lines) d {r} h k = elim (Bool-cases (f.is_empty (f.strip line))) [
    | inl b ↦ read_jobs-IsJobs lines d h (rw b at k)
    | inr b ↦ elim (Loaded-cases (f.loads (f.strip line))) [
      | inl e ↦ read_jobs-IsJobs lines d h (rw (b, e) at k)
      | inr (inl e) ↦ let none_some : none ≡ some r = rw (b, e) at k in cc
      | inr (inr (i, e)) ↦ elim (Bool-cases (str_eq i.job_id "")) [
        | inl c ↦ read_jobs-IsJobs lines d h (rw (b, e, c) at k)
        | inr c ↦
            read_jobs-IsJobs lines (insert i.job_id i d) (insert-IsJobs i d c h) (rw (b, e, c) at k)
      ]
    ]
  ]

  -- The file of a loaded store reads as its jobs.
  abbrev pub IsSaved : PersistentScanJobStore R Line → Type 0
  IsSaved s =
      (s.loaded ≡ true) × (read_jobs f [] (lines_of s.store_file) ≡ some s.jobs) × IsJobs s.jobs

  All-newest : (n : ℕ) (d : Dict (ScanJob R)) → All IsNamed (values d) → All IsNamed (newest n d)
  unfolding newest
  All-newest n d h =
      All-of_mem IsNamed (newest n d)
        (λ j m. All-mem IsNamed h (mem_of_mem-sort_by not_older (values d) (mem_of_mem-take n _ m)))

  -- The lines of the file are read without an exception, and if it is not compacted when it is loaded, it
  -- holds no more jobs than the store keeps.
  abbrev pub IsLoadable : ℕ → Option (List Line) → Type 0
  IsLoadable max_jobs file =
      (jobs : Dict (ScanJob R)) × (read_jobs f [] (lines_of file) ≡ some jobs)
      × ((max_file_size < f.file_bytes (lines_of file)) ⊎ (length jobs ≤ max_jobs))

  module _ (laws : IsJobFormat) where
    pub ensure_loaded-IsSaved :
        (max_jobs : ℕ) (file : Option (List Line))
        → IsLoadable max_jobs file
        → IsSaved (ensure_loaded f (new_store max_jobs file))
    unfolding ensure_loaded load_from_disk compact
    ensure_loaded-IsSaved max_jobs none h =
        (refl, unfold read_jobs in refl, unfold values in (tt, tt))
    ensure_loaded-IsSaved max_jobs (some lines) (jobs, e, h) =
        let all : IsJobs jobs = read_jobs-IsJobs lines [] (tt, unfold values in tt) e in
        let some_of = All-newest max_jobs jobs all.1 in
        elim (Bool-cases (ltb max_file_size (f.file_bytes lines))) [
          | inl b ↦
              rw (b, compact, e)
                (
                  refl,
                  read_jobs-map laws (newest max_jobs jobs) [] some_of,
                  dict_from-IsJobs (newest max_jobs jobs) [] some_of (tt, unfold values in tt),
                )
          | inr b ↦
              let few : ltb max_jobs (length jobs) ≡ false = ground (arith, b, h) in
              rw (b, e, few) (refl, e, all)
        ]
