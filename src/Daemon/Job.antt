-- ===== src/Daemon/Job.antt =====
-- daemon/store.py and daemon/server.py: a scan job, the fields that `update` changes, and the newest
-- jobs first. What a scan gives back is an argument.
use pico_dome.Base.{ℕ, String, Option, none, some, Bool, List, take, ◌≡◌, refl}
use pico_dome.Base.Dict.{Dict, values}
use pico_dome.Base.Text.{str_leb}
use pico_dome.Base.Sort.{sort_by}

pub data ScanJobStatus : Type 0 where
  pending completed failed : ScanJobStatus

pub record ScanJob (R : Type 0) : Type 0 where
  pub job_id : String
  pub command : List String
  pub actor : String
  pub status : ScanJobStatus
  pub created_at : String
  pub completed_at : Option String
  pub result : Option R
  pub error : Option String
  pub tenant_id : Option String

-- The keyword arguments of `update`, those that are given.
pub record Changes (R : Type 0) : Type 0 where
  pub status : Option ScanJobStatus
  pub completed_at : Option String
  pub result : Option R
  pub error : Option String
  pub tenant_id : Option String

abbrev pub given : {A : Type 0} → Option A → Option A → Option A
given none old = old
given (some a) old = some a

abbrev pub given_status : Option ScanJobStatus → ScanJobStatus → ScanJobStatus
given_status none old = old
given_status (some s) old = s

module _ {R : Type 0} where
  abbrev pub no_changes : Changes R
  no_changes = record {
    status = none;
    completed_at = none;
    result = none;
    error = none;
    tenant_id = none;
  }

  -- The job that `add` makes.
  abbrev pub new_job : String → String → List String → String → ScanJob R
  new_job now job_id command actor = record {
    job_id = job_id;
    command = command;
    actor = actor;
    status = pending;
    created_at = now;
    completed_at = none;
    result = none;
    error = none;
    tenant_id = none;
  }

  -- `job.update(kwargs)`
  unfoldable pub apply : Changes R → ScanJob R → ScanJob R
  apply c j = record j {
    status = given_status c.status j.status;
    completed_at = given c.completed_at j.completed_at;
    result = given c.result j.result;
    error = given c.error j.error;
    tenant_id = given c.tenant_id j.tenant_id;
  }

  pub job_id-apply : (c : Changes R) (j : ScanJob R) → (apply c j).job_id ≡ j.job_id
  unfolding apply
  job_id-apply c j = refl

  -- The order of `sorted` by the time with `reverse`: of two jobs of one time the first stays first.
  unfoldable pub not_older : ScanJob R → ScanJob R → Bool
  unfolding str_leb
  not_older i j = str_leb j.created_at i.created_at

  unfoldable pub newest : ℕ → Dict (ScanJob R) → List (ScanJob R)
  unfolding not_older values sort_by
  newest n jobs = take n (sort_by not_older (values jobs))
