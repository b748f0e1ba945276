-- ===== src/Daemon/Persistent.antt =====
-- daemon/store.py: `PersistentScanJobStore`. The file is the list of its lines; `strip`, `json.loads`
-- and `json.dumps` of a job and the size of a file are arguments. Reading and writing succeed.
use pico_dome.Base.{
  ℕ, String, Option, none, some, Bool, true, false, List, [], ◌∷◌, ◌++◌, map, length, ltb,
  if◌then◌else◌, ◌≡◌, refl,
}
use pico_dome.Base.Dict.{Dict, lookup, insert, values}
use pico_dome.Base.Text.{str_eq}
use pico_dome.Daemon.Job.{
  ScanJobStatus, pending, completed, failed, ScanJob, Changes, new_job, apply, newest,
}

abbrev pub max_file_size : ℕ
max_file_size = 10485760

-- What `json.loads` makes of a line. Of a value that is no object, or whose id is no text, the loop over
-- the lines raises an exception; a job whose line has no id, or no time, is read with an empty one.
pub data Loaded (R : Type 0) : Type 0 where
  invalid_json no_job : Loaded R
  job_object : ScanJob R → Loaded R

-- What the code takes from outside.
pub record JobFormat (R Line : Type 0) : Type 0 where
  pub strip : Line → Line
  pub is_empty : Line → Bool
  pub loads : Line → Loaded R
  pub dumps : ScanJob R → Line
  pub file_bytes : List Line → ℕ

pub record PersistentScanJobStore (R Line : Type 0) : Type 0 where
  pub max_jobs : ℕ
  pub store_file : Option (List Line)
  pub jobs : Dict (ScanJob R)
  pub loaded : Bool

module _ {R Line : Type 0} where
  abbrev pub new_store : ℕ → Option (List Line) → PersistentScanJobStore R Line
  new_store max_jobs file = record {
    max_jobs = max_jobs;
    store_file = file;
    jobs = [];
    loaded = false;
  }

-- `{j["job_id"]: j for j in jobs}`, after what is there.
unfoldable pub dict_from : {R : Type 0} → Dict (ScanJob R) → List (ScanJob R) → Dict (ScanJob R)
unfolding insert
dict_from found [] = found
dict_from found (j ∷ js) = dict_from (insert j.job_id j found) js

-- The time of completion that a final status sets.
abbrev pub finish_at : {R : Type 0} → String → Option ScanJobStatus → ScanJob R → ScanJob R
finish_at now none j = j
finish_at now (some pending) j = j
finish_at now (some completed) j = record j { completed_at = some now }
finish_at now (some failed) j = record j { completed_at = some now }

abbrev pub finish : {R : Type 0} → String → Changes R → ScanJob R → ScanJob R
finish now c j = finish_at now c.status j

pub job_id-finish_at :
    {R : Type 0} (now : String) (o : Option ScanJobStatus) (j : ScanJob R)
    → (finish_at now o j).job_id ≡ j.job_id
job_id-finish_at now none j = refl
job_id-finish_at now (some pending) j = refl
job_id-finish_at now (some completed) j = refl
job_id-finish_at now (some failed) j = refl

pub tenant_id-finish_at :
    {R : Type 0} (now : String) (o : Option ScanJobStatus) (j : ScanJob R)
    → (finish_at now o j).tenant_id ≡ j.tenant_id
tenant_id-finish_at now none j = refl
tenant_id-finish_at now (some pending) j = refl
tenant_id-finish_at now (some completed) j = refl
tenant_id-finish_at now (some failed) j = refl

module _ {R Line : Type 0} (f : JobFormat R Line) where
  -- The loop over the lines of the file; `none` if it raises an exception.
  unfoldable pub read_jobs : Dict (ScanJob R) → List Line → Option (Dict (ScanJob R))
  unfolding insert
  read_jobs found [] = some found
  read_jobs found (line ∷ lines) =
      let skip = read_jobs found lines in
      if f.is_empty (f.strip line) then skip else elim (f.loads (f.strip line)) [
        | invalid_json ↦ skip
        | no_job ↦ none
        | job_object j ↦
            let kept = read_jobs (insert j.job_id j found) lines in
            if str_eq j.job_id "" then skip else kept
      ]

  -- `_compact`, of a file with these lines. An exception is caught in `_ensure_loaded`, and nothing has
  -- changed by then.
  unfoldable pub compact : List Line → PersistentScanJobStore R Line → PersistentScanJobStore R Line
  unfolding read_jobs newest dict_from
  compact lines s = elim (read_jobs [] lines) [
    | none ↦ s
    | some found ↦
        let sorted_jobs = newest s.max_jobs found in
        record s { store_file = some (map f.dumps sorted_jobs); jobs = dict_from [] sorted_jobs }
  ]

  -- `_load_from_disk`, with the exceptions that `_ensure_loaded` catches
  unfoldable pub load_from_disk : PersistentScanJobStore R Line → PersistentScanJobStore R Line
  unfolding compact
  load_from_disk s = elim s.store_file [
    | none ↦ s
    | some lines ↦
        if ltb max_file_size (f.file_bytes lines)
        then compact lines s
        else elim (read_jobs [] lines) [
          | none ↦ s
          | some jobs ↦ record s {
            jobs =
                if ltb s.max_jobs (length jobs)
                then dict_from [] (newest s.max_jobs jobs)
                else jobs;
          }
        ]
  ]

  unfoldable pub ensure_loaded : PersistentScanJobStore R Line → PersistentScanJobStore R Line
  unfolding load_from_disk
  ensure_loaded s = if s.loaded then s else record (load_from_disk s) { loaded = true }

  -- `_append_to_disk`
  abbrev pub append_to_disk : ScanJob R → Option (List Line) → Option (List Line)
  append_to_disk j none = some (f.dumps j ∷ [])
  append_to_disk j (some lines) = some (lines ++ (f.dumps j ∷ []))

  -- `_rewrite_disk`
  unfoldable pub rewrite_disk : PersistentScanJobStore R Line → PersistentScanJobStore R Line
  unfolding values
  rewrite_disk s = record s { store_file = some (map f.dumps (values s.jobs)) }

  unfoldable pub add :
      String
      → String
      → List String
      → String
      → PersistentScanJobStore R Line
      → PersistentScanJobStore R Line × ScanJob R
  unfolding ensure_loaded insert
  add now job_id command actor s =
      let job : ScanJob R = new_job now job_id command actor in
      let s' = ensure_loaded s in
      (
        record s' {
          jobs = insert job_id job s'.jobs;
          store_file = append_to_disk job s'.store_file;
        },
        job,
      )

  unfoldable pub update :
      String
      → String
      → Changes R
      → PersistentScanJobStore R Line
      → PersistentScanJobStore R Line × Option (ScanJob R)
  unfolding ensure_loaded apply lookup insert rewrite_disk
  update now job_id c s =
      let s' = ensure_loaded s in
      elim (lookup job_id s'.jobs) [
        | none ↦ (s', none)
        | some j ↦
            let j' = finish now c (apply c j) in
            (rewrite_disk (record s' { jobs = insert job_id j' s'.jobs }), some j')
      ]

  unfoldable pub get :
      String → PersistentScanJobStore R Line → PersistentScanJobStore R Line × Option (ScanJob R)
  unfolding ensure_loaded lookup
  get job_id s = let s' = ensure_loaded s in (s', lookup job_id s'.jobs)

  unfoldable pub list_recent :
      ℕ → PersistentScanJobStore R Line → PersistentScanJobStore R Line × List (ScanJob R)
  unfolding ensure_loaded newest
  list_recent limit s = let s' = ensure_loaded s in (s', newest limit s'.jobs)
