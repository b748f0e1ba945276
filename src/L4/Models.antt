-- ===== src/L4/Models.antt =====
-- l4/models.py: what was observed of a run, and what is expected of it. A score is counted in fifths.
use pico_dome.Base.{ℕ, String, Option, Bool, List}
use pico_dome.Base.Int.{ℤ}

pub record NetworkCall : Type 0 where
  pub address : String
  pub port : ℕ
  pub protocol : String
  pub bytes_sent : ℕ
  pub bytes_received : ℕ
  pub timestamp_ms : ℕ

pub record DnsQuery : Type 0 where
  pub hostname : String
  pub resolved_ips : List String
  pub timestamp_ms : ℕ

pub record FileOperation : Type 0 where
  pub path : String
  pub operation : String
  pub success : Bool
  pub bytes_transferred : ℕ
  pub timestamp_ms : ℕ

pub record ProcessSpawn : Type 0 where
  pub executable : String
  pub args : List String
  pub pid : ℕ
  pub exit_code : Option ℤ
  pub timestamp_ms : ℕ

pub record TimingPoint : Type 0 where
  pub label : String
  pub elapsed_ms : ℕ
  pub timestamp_ms : ℕ

pub record BehavioralProfile : Type 0 where
  pub package_name : String
  pub timing_points : List TimingPoint
  pub network_calls : List NetworkCall
  pub dns_queries : List DnsQuery
  pub fs_ops : List FileOperation
  pub spawns : List ProcessSpawn
  pub entrypoint : String
  pub total_runtime_ms : ℕ
  pub exit_code : ℤ
  pub stdout_len : ℕ
  pub stderr_len : ℕ

pub record Baseline : Type 0 where
  pub name : String
  pub package_name : String
  pub version : String
  pub expected_network_calls : ℤ
  pub expected_dns_queries : ℤ
  pub expected_fs_ops : ℤ
  pub expected_spawns : ℤ
  pub expected_runtime_ms_range : ℤ × ℤ
  pub allowed_domains : List String
  pub allowed_paths : List String
  pub notes : String

-- A line of the details.
pub data DriftFlag : Type 0 where
  network : ℕ → ℤ → DriftFlag
  dns : ℕ → ℤ → DriftFlag
  fs : ℕ → ℤ → DriftFlag
  spawn : ℕ → ℤ → DriftFlag
  timing : ℕ → ℤ → ℤ → DriftFlag
  unexpected_domain : String → DriftFlag
  unexpected_path : String → DriftFlag

pub record DriftResult : Type 0 where
  pub baseline_name : String
  pub score : ℕ
  pub network_drift : Bool
  pub dns_drift : Bool
  pub fs_drift : Bool
  pub spawn_drift : Bool
  pub timing_drift : Bool
  pub details : List DriftFlag
