-- ===== src/L3/Engine.antt =====
-- l3/engine.py: the choice of a sandbox backend, the backend that is kept for later runs, and a run. The
-- environment is the first argument of each function; lower case and `strip` are arguments too.
pub mod Choice
pub mod Results
pub mod Runs
mod Tests
use pico_dome.Base.{
  ℕ, String, Option, none, some, Bool, true, false, List, [], ◌∷◌, ◌||◌, ◌++◌, if◌then◌else◌,
}
use pico_dome.Base.Text.{str_eq, contains}
use pico_dome.Base.Dict.{Dict, lookup}
use pico_dome.Base.Result.{Error, Result, ok, err, get_or}
use pico_dome.L3.Models.{Policy}
use pico_dome.L3.Policy.{default_policy}
use pico_dome.L3.Hash.{CanonicalPolicy, policy_hash}
use pico_dome.L3.Run.{Verdict, SandboxResult, SandboxBackend, Call}

-- What the check of a kernel backend comes to: it cannot be imported, it raises an exception, or it answers.
pub data Check : Type 0 where
  not_importable check_failed : Check
  is_available : Bool → Check

pub record Host : Type 0 where
  pub system : String
  pub environ : Dict String
  pub seccomp_check : Check
  pub seatbelt_check : Check
  pub seccomp_backend : SandboxBackend
  pub seatbelt_backend : SandboxBackend
  pub subprocess_backend : SandboxBackend

pub data EngineError : Type 0 where
  -- the backend's name and the available backends
  backend_unavailable : String → List String → EngineError
  policy_failed : Error → EngineError
  run_failed : EngineError

pub data Outcome (A : Type 0) : Type 0 where
  done : A → Outcome A
  raised : EngineError → Outcome A

abbrev pub succeeds : Check → Bool
succeeds (is_available b) = b
succeeds _ = false

unfoldable pub seccomp_available : Host → Bool
seccomp_available h = if str_eq h.system "Linux" then succeeds h.seccomp_check else false

unfoldable pub seatbelt_available : Host → Bool
seatbelt_available h =
    if str_eq h.system "Linux"
    then false
    else if str_eq h.system "Darwin"
    then succeeds h.seatbelt_check
    else false

unfoldable pub available : Host → List String
unfolding seccomp_available seatbelt_available
available h =
    (if seccomp_available h then "seccomp-bpf" ∷ [] else [])
    ++ (if seatbelt_available h then "seatbelt" ∷ [] else [])
    ++ "subprocess" ∷ []

-- A kernel backend that was asked for: never a weaker one in its place unless that is allowed.
unfoldable pub requested_kernel :
    String → Bool → SandboxBackend → Bool → Host → Outcome SandboxBackend
unfolding available
requested_kernel name is_there backend allow_degraded h =
    if is_there
    then done backend
    else if allow_degraded
    then done h.subprocess_backend
    else raised (backend_unavailable name (available h))

unfoldable pub requested_backend : String → Bool → Host → Outcome SandboxBackend
unfolding requested_kernel available
requested_backend requested allow_degraded h =
    if str_eq requested "seccomp-bpf"
    then requested_kernel "seccomp-bpf" (seccomp_available h) h.seccomp_backend allow_degraded h
    else if str_eq requested "seatbelt"
    then requested_kernel "seatbelt" (seatbelt_available h) h.seatbelt_backend allow_degraded h
    else if str_eq requested "subprocess"
    then done h.subprocess_backend
    else raised (backend_unavailable requested (available h))

unfoldable pub auto_backend : Bool → Host → Outcome SandboxBackend
unfolding available
auto_backend allow_degraded h =
    if seccomp_available h
    then done h.seccomp_backend
    else if seatbelt_available h
    then done h.seatbelt_backend
    else if allow_degraded
    then done h.subprocess_backend
    else raised (backend_unavailable "auto" (available h))

module _ (lower strip : String → String) where
  unfoldable pub degraded_allowed : Host → Bool
  unfolding contains lookup
  degraded_allowed h =
      contains ("1" ∷ "true" ∷ "yes" ∷ [])
        (lower (get_or (lookup "PICODOME_ALLOW_DEGRADED" h.environ) ""))

  unfoldable pub detect_backend : Host → Option String → Option Bool → Outcome SandboxBackend
  unfolding degraded_allowed requested_backend auto_backend
  detect_backend h requested allow_degraded =
      let allow = get_or allow_degraded (degraded_allowed h) in
      elim requested [
        | none ↦ auto_backend allow h
        | some name ↦ requested_backend (strip (lower name)) allow h
      ]

  -- `get_backend` with `_default_backend`, the backend that is kept
  unfoldable pub get_backend :
      Host → Option SandboxBackend → Option SandboxBackend × Outcome SandboxBackend
  unfolding detect_backend lookup
  get_backend h (some b) = (some b, done b)
  get_backend h none = elim (detect_backend h (lookup "PICODOME_SANDBOX_BACKEND" h.environ) none) [
    | done b ↦ (some b, done b)
    | raised e ↦ (none, raised e)
  ]

unfoldable pub set_backend : SandboxBackend → Option SandboxBackend → Option SandboxBackend
set_backend b kept = some b

unfoldable pub reset_backend : Option SandboxBackend → Option SandboxBackend
reset_backend kept = none

-- The arguments of `sandbox_run`.
pub record Request : Type 0 where
  pub command : List String
  pub policy : Option Policy
  pub timeout : Option ℕ
  pub cwd : Option String
  pub env : Option (Dict String)
  pub backend : Option SandboxBackend
  pub deterministic : Bool
  pub allow_degraded : Option Bool

unfoldable pub policy_of : Request → Result Policy
unfolding default_policy
policy_of r = elim r.policy [ none ↦ default_policy | some p ↦ ok p ]

unfoldable pub call_of : Request → Policy → Call
call_of r p = record {
  command = r.command;
  policy = p;
  timeout = r.timeout;
  cwd = r.cwd;
  env = r.env;
}

module _ (lower strip : String → String) where
  unfoldable pub choose_backend :
      Host → Request → Option SandboxBackend → Option SandboxBackend × Outcome SandboxBackend
  unfolding detect_backend get_backend
  choose_backend h r kept = elim r.backend [
    | some b ↦ (kept, done b)
    | none ↦ elim r.allow_degraded [
      | some allow ↦ (kept, detect_backend lower strip h none (some allow))
      | none ↦ get_backend lower strip h kept
    ]
  ]

module _ {Bytes : Type 0} (dumps : CanonicalPolicy → Bytes) (sha256 : Bytes → String)
    (lower strip : String → String)
    -- The id and the time of this run.
    (new_run_id new_timestamp : String) where
  -- The result with the evidence of the run.
  unfoldable pub with_evidence : Bool → SandboxBackend → Policy → SandboxResult → SandboxResult
  unfolding policy_hash
  with_evidence deterministic be p result = record result {
    run_id = (if deterministic then "" else new_run_id);
    timestamp = (if deterministic then "" else new_timestamp);
    duration_ms = (if deterministic then 0 else result.duration_ms);
    backend = be.name;
    policy_hash = policy_hash dumps sha256 p;
    policy_version = p.version;
  }

  unfoldable pub run_with : Request → Policy → Outcome SandboxBackend → Outcome SandboxResult
  unfolding with_evidence call_of
  run_with r p (raised e) = raised e
  run_with r p (done be) = elim (be.run (call_of r p)) [
    | none ↦ raised run_failed
    | some result ↦ done (with_evidence r.deterministic be p result)
  ]

  unfoldable pub sandbox_run :
      Host → Request → Option SandboxBackend → Option SandboxBackend × Outcome SandboxResult
  unfolding choose_backend run_with policy_of
  sandbox_run h r kept = elim (policy_of r) [
    | err e ↦ (kept, raised (policy_failed e))
    | ok p ↦
        let (kept', chosen) = choose_backend lower strip h r kept in (kept', run_with r p chosen)
  ]

  -- The runs of one process, each in its environment.
  unfoldable pub sandbox_runs :
      List (Host × Request) → Option SandboxBackend → List (Request × Outcome SandboxResult)
  unfolding sandbox_run
  sandbox_runs [] kept = []
  sandbox_runs ((h, r) ∷ rest) kept =
      let (kept', outcome) = sandbox_run h r kept in (r, outcome) ∷ sandbox_runs rest kept'
