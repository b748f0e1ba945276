-- ===== src/Daemon/View.antt =====
-- daemon/store.py: the jobs of a store once it is loaded, and what `add` and `update` make of them.
use pico_dome.Base.{String, some, ◌≡◌, refl, inl, inr, ap, true, Bool-cases, List}
use pico_dome.Base.Dict.{Dict, lookup, insert}
use pico_dome.Daemon.Job.{ScanJob, Changes, new_job, apply}
use pico_dome.Daemon.Persistent.{
  JobFormat, PersistentScanJobStore, ensure_loaded, rewrite_disk, finish,
}
use pico_dome.Daemon.Persistent

module _ {R Line : Type 0} (f : JobFormat R Line) where
  abbrev pub jobs_of : PersistentScanJobStore R Line → Dict (ScanJob R)
  jobs_of s = (ensure_loaded f s).jobs

  pub ensure_loaded-loaded :
      (s : PersistentScanJobStore R Line) → s.loaded ≡ true → ensure_loaded f s ≡ s
  unfolding ensure_loaded
  ensure_loaded-loaded s e = rw e refl

  pub ensured : (s : PersistentScanJobStore R Line) → (ensure_loaded f s).loaded ≡ true
  unfolding ensure_loaded
  ensured s = elim (Bool-cases s.loaded) [ inl b ↦ rw b refl | inr b ↦ rw b refl ]

  pub jobs-add :
      (now job_id : String) (command : List String) (actor : String)
      (s : PersistentScanJobStore R Line)
      → jobs_of (Persistent.add f now job_id command actor s).0
        ≡ insert job_id (new_job now job_id command actor) (jobs_of s)
  unfolding Persistent.add
  jobs-add now job_id command actor s =
      ap (λ x. x.jobs)
        (ensure_loaded-loaded (Persistent.add f now job_id command actor s).0 (ensured s))

  pub jobs-update :
      (now job_id : String) (c : Changes R) (s : PersistentScanJobStore R Line) {j : ScanJob R}
      → lookup job_id (jobs_of s) ≡ some j
      → jobs_of (Persistent.update f now job_id c s).0
        ≡ insert job_id (finish now c (apply c j)) (jobs_of s)
  unfolding Persistent.update rewrite_disk
  jobs-update now job_id c s {j} e =
      rw (Persistent.update, e) (ap (λ x. x.jobs) (ensure_loaded-loaded _ (ensured s)))
