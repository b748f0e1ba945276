-- ===== src/Daemon/Calls.antt =====
-- daemon/store.py: what the file of a store is after any calls of `add` and `update`.
use pico_dome.Base.{
  some_injective, ℕ, ◌≤◌, String, Option, none, some, false, List, [], ◌∷◌, ◌++◌, length, ltb, All,
  All-mem, ◌≡◌, refl, inl, inr, arith, ap, ◌∙◌, Option-cases,
}
use pico_dome.Base.Dict.{Dict, lookup, insert, values, insert-IsKeyed, key_of_lookup, mem_of_lookup}
use pico_dome.Base.Text.{str_eq}
use pico_dome.Daemon.Job.{ScanJob, Changes, new_job, apply}
use pico_dome.Daemon.Persistent.{
  JobFormat, PersistentScanJobStore, new_store, finish, job_id-finish_at, read_jobs, load_from_disk,
  ensure_loaded, append_to_disk, rewrite_disk, add, update, get, list_recent, max_file_size,
}
use pico_dome.Daemon.View.{ensure_loaded-loaded}
use pico_dome.Daemon.Restart.{
  lines_of, by_id, IsNamed, insert-IsJobs, values-insert, dict_from-values, IsJobFormat,
  read_jobs-append, read_jobs-map, IsSaved, IsLoadable, ensure_loaded-IsSaved,
}

-- A call that changes the store, at a time.
pub data Call (R : Type 0) : Type 0 where
  adds : String → String → List String → String → Call R
  updates : String → String → Changes R → Call R

-- No new job has an empty id.
abbrev pub IsCall : {R : Type 0} → Call R → Type 0
IsCall (adds now job_id command actor) = str_eq job_id "" ≡ false
IsCall (updates now job_id c) = Unit

module _ {R Line : Type 0} (f : JobFormat R Line) where
  unfoldable pub run : List (Call R) → PersistentScanJobStore R Line → PersistentScanJobStore R Line
  unfolding add update
  run [] s = s
  run (adds now job_id command actor ∷ calls) s = run calls (add f now job_id command actor s).0
  run (updates now job_id c ∷ calls) s = run calls (update f now job_id c s).0

  job_id-finish :
      (now : String) (c : Changes R) (j : ScanJob R) → (finish now c (apply c j)).job_id ≡ j.job_id
  unfolding apply
  job_id-finish now c j = job_id-finish_at now c.status (apply c j)

  lines-append :
      (j : ScanJob R) (file : Option (List Line))
      → lines_of (append_to_disk f j file) ≡ lines_of file ++ (f.dumps j ∷ [])
  lines-append j none = refl
  lines-append j (some lines) = refl

  module _ (laws : IsJobFormat f) where
    add-IsSaved :
        (now job_id : String) (command : List String) (actor : String)
        (s : PersistentScanJobStore R Line)
        → str_eq job_id "" ≡ false
        → IsSaved f (ensure_loaded f s)
        → IsSaved f (add f now job_id command actor s).0
    unfolding add
    add-IsSaved now job_id command actor s n h = (
      h.0,
      ap (read_jobs f [])
            (lines-append (new_job now job_id command actor) (ensure_loaded f s).store_file)
          ∙ read_jobs-append f laws (new_job now job_id command actor) []
              (lines_of (ensure_loaded f s).store_file) n h.1,
      insert-IsJobs (new_job now job_id command actor) (ensure_loaded f s).jobs n h.2,
    )

    update-IsSaved :
        (now job_id : String) (c : Changes R) (s : PersistentScanJobStore R Line)
        → IsSaved f (ensure_loaded f s)
        → IsSaved f (update f now job_id c s).0
    unfolding update rewrite_disk
    update-IsSaved now job_id c s h = elim (Option-cases (lookup job_id (ensure_loaded f s).jobs)) [
      | inl e ↦ rw (update, e) h
      | inr (j, e) ↦
          let found = finish now c (apply c j) in
          let own : found.job_id ≡ job_id =
            job_id-finish now c j ∙ key_of_lookup by_id job_id (ensure_loaded f s).jobs h.2.0 e in
          let named : IsNamed found =
            ap (λ x. str_eq x "") (job_id-finish now c j)
            ∙ All-mem IsNamed h.2.1 (mem_of_lookup job_id (ensure_loaded f s).jobs e) in
          let keyed = insert-IsKeyed by_id job_id found (ensure_loaded f s).jobs own h.2.0 in
          let all = values-insert job_id found (ensure_loaded f s).jobs named h.2.1 in
          rw (update, e)
            (
              h.0,
              read_jobs-map f laws (values (insert job_id found (ensure_loaded f s).jobs)) [] all
                  ∙ ap some (dict_from-values [] _ keyed),
              (keyed, all),
            )
    ]

    run-IsSaved :
        (calls : List (Call R)) (s : PersistentScanJobStore R Line)
        → All IsCall calls
        → IsSaved f s
        → IsSaved f (run calls s)
    unfolding run
    run-IsSaved [] s n h = h
    run-IsSaved (adds now job_id command actor ∷ calls) s n h =
        run-IsSaved calls _ n.1
          (add-IsSaved now job_id command actor s n.0 (rw (ensure_loaded-loaded f s h.0) h))
    run-IsSaved (updates now job_id c ∷ calls) s n h =
        run-IsSaved calls _ n.1
          (update-IsSaved now job_id c s (rw (ensure_loaded-loaded f s h.0) h))

    reloaded :
        (keeps : ℕ) (file : Option (List Line)) (d : Dict (ScanJob R))
        → read_jobs f [] (lines_of file) ≡ some d
        → length d ≤ keeps
        → f.file_bytes (lines_of file) ≤ max_file_size
        → (ensure_loaded f (new_store keeps file)).jobs ≡ d
    unfolding ensure_loaded load_from_disk read_jobs
    reloaded keeps none d e few size = some_injective {a = []} {b = d} e
    reloaded keeps (some lines) d e few size =
        let small : ltb max_file_size (f.file_bytes lines) ≡ false = ground (arith, size) in
        let all : ltb keeps (length d) ≡ false = ground (arith, few) in rw (small, e, all) refl

    -- A store is started on a file whose lines are read without an exception, and that is compacted when it is
    -- loaded, or holds no more jobs than the store keeps. After any calls of `add`, with ids that are not empty, and `update`, if the file is
    -- not above the limit, a store that is started on the file and keeps at least as many jobs as there are
    -- finds for every id, and lists, what the store does.
    pub run_restart :
        (max_jobs keeps : ℕ) (file : Option (List Line)) (calls : List (Call R))
        → IsLoadable f max_jobs file
        → All IsCall calls
        → let s = run calls (ensure_loaded f (new_store max_jobs file)) in
          length s.jobs ≤ keeps
          → f.file_bytes (lines_of s.store_file) ≤ max_file_size
          → let fresh = new_store keeps s.store_file in
            ((i : String) → (get f i fresh).1 ≡ (get f i s).1)
            × ((limit : ℕ) → (list_recent f limit fresh).1 ≡ (list_recent f limit s).1)
    unfolding get list_recent
    run_restart max_jobs keeps file calls h n few small =
        let s = run calls (ensure_loaded f (new_store max_jobs file)) in
        let saved : IsSaved f s =
          run-IsSaved calls _ n (ensure_loaded-IsSaved f laws max_jobs file h) in
        let same = reloaded keeps s.store_file s.jobs saved.1 few small in
        let own = ensure_loaded-loaded f s saved.0 in
        (λ i. rw (same, own) refl, λ limit. rw (same, own) refl)
