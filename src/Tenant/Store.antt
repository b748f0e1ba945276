-- ===== src/Tenant/Store.antt =====
-- tenant/store.py: `TenantAwareScanJobStore`, over the persistent store.
use pico_dome.Base.{ℕ, String, Option, none, some, Bool, List, filter, take, if◌then◌else◌}
use pico_dome.Base.Text.{str_eq}
use pico_dome.Daemon.Job.{ScanJob, Changes, no_changes}
use pico_dome.Daemon.Persistent.{
  JobFormat, PersistentScanJobStore, ensure_loaded, rewrite_disk, finish,
}
use pico_dome.Daemon.Persistent
use pico_dome.Tenant.Registry.{TenantId, TextRules, normalized}

-- `job.get("tenant_id", DEFAULT_TENANT.normalized)`
abbrev pub owner_of : Option String → String
owner_of none = "default"
owner_of (some t) = t

abbrev pub owner : {R : Type 0} → ScanJob R → String
owner j = owner_of j.tenant_id

module _ {R Line : Type 0} (f : JobFormat R Line) (rules : TextRules) where
  unfoldable pub add :
      String
      → String
      → List String
      → String
      → TenantId
      → PersistentScanJobStore R Line
      → PersistentScanJobStore R Line × ScanJob R
  add now job_id command actor t s =
      let tag : Changes R = record no_changes { tenant_id = some (normalized rules t) } in
      let (s', job) = Persistent.add f now job_id command actor s in
      (
        (Persistent.update f now job_id tag s').0,
        record job { tenant_id = some (normalized rules t) },
      )

  unfoldable pub get :
      String
      → TenantId
      → PersistentScanJobStore R Line
      → PersistentScanJobStore R Line × Option (ScanJob R)
  get job_id t s =
      let (s', found) = Persistent.get f job_id s in
      elim found [
        | none ↦ (s', none)
        | some j ↦ if str_eq (owner j) (normalized rules t) then (s', some j) else (s', none)
      ]

  unfoldable pub update :
      String
      → String
      → TenantId
      → Changes R
      → PersistentScanJobStore R Line
      → PersistentScanJobStore R Line × Option (ScanJob R)
  unfolding get
  update now job_id t c s =
      let (s', found) = get job_id t s in
      elim found [ none ↦ (s', none) | some j ↦ Persistent.update f now job_id c s' ]

  abbrev pub is_of : TenantId → ScanJob R → Bool
  is_of t j = str_eq (owner j) (normalized rules t)

  unfoldable pub list_recent :
      TenantId
      → ℕ
      → PersistentScanJobStore R Line
      → PersistentScanJobStore R Line × List (ScanJob R)
  unfolding filter
  list_recent t limit s =
      let (s', all_jobs) = Persistent.list_recent f 1000 s in
      (s', take limit (filter (is_of t) all_jobs))
