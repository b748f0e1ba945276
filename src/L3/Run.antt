-- ===== src/L3/Run.antt =====
-- l3/models.py: `SandboxEvent` and `SandboxResult`, models.py: `Verdict`, and l3/backends/base.py: what a backend
-- is for its callers. Times are milliseconds.
use pico_dome.Base.{ℕ, String, Option, Bool, List}
use pico_dome.Base.Int.{ℤ}
use pico_dome.Base.Dict.{Dict}
use pico_dome.L3.Models.{Policy}

pub data Verdict : Type 0 where
  allow deny kill : Verdict

pub record SandboxEvent : Type 0 where
  pub rule_id : String
  pub verdict : Verdict
  pub operation : String
  pub detail : String
  pub path : String
  pub address : String
  pub timestamp_ms : ℕ

pub record SandboxResult : Type 0 where
  pub run_id : String
  pub timestamp : String
  pub backend : String
  pub policy_hash : String
  pub policy_version : String
  pub command : List String
  pub overall_verdict : Verdict
  pub exit_code : ℤ
  pub duration_ms : ℕ
  pub events : List SandboxEvent
  pub policy_name : String
  pub backend_name : String
  pub isolation_level : String
  pub enforcement_guarantee : String
  pub degraded : Bool
  pub stdout : String
  pub stderr : String

-- The arguments of `SandboxBackend.run`.
pub record Call : Type 0 where
  pub command : List String
  pub policy : Policy
  pub timeout : Option ℕ
  pub cwd : Option String
  pub env : Option (Dict String)

-- `SandboxBackend`. A run gives `none` where it raises an exception.
pub record SandboxBackend : Type 0 where
  pub name : String
  pub isolation_level : String
  pub enforcement_guarantee : String
  pub run : Call → Option SandboxResult
