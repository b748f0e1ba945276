-- ===== src/L3/Sample.antt =====
-- A sample policy, sample runs and backends, for the tests of the sandbox engine and of what reads its results.
use pico_dome.Base.{ℕ, String, none, some, true, false, [], ◌∷◌}
use pico_dome.Base.Int.{pos}
use pico_dome.L3.Models.{SyscallAction, RuleTarget, Policy}
use pico_dome.L3.Hash.{CanonicalPolicy}
use pico_dome.L3.Run.{allow, SandboxResult, SandboxBackend, Call}
use pico_dome.L3.Engine.{Check, is_available, Host, Request}

abbrev pub no_net : Policy
no_net = record {
  name = "no-net";
  version = "2";
  default_action = SyscallAction.deny;
  rules =
      record {
        rule_id = "N1";
        target = RuleTarget.network_out;
        action = SyscallAction.deny;
        paths = [];
        addresses = [];
        syscalls = [];
        description = "";
      }
      ∷ [];
  fail_closed = true;
}

abbrev pub result_after : ℕ → Call → SandboxResult
result_after n c = record {
  run_id = "r";
  timestamp = "t";
  backend = "";
  policy_hash = "";
  policy_version = "";
  command = c.command;
  overall_verdict = allow;
  exit_code = pos 0;
  duration_ms = n;
  events = [];
  policy_name = c.policy.name;
  backend_name = "seccomp-bpf";
  isolation_level = "kernel_enforced";
  enforcement_guarantee = "hard";
  degraded = false;
  stdout = "connect 10.0.0.1:443";
  stderr = "";
}

-- A backend whose runs take as long.
abbrev pub backend_after : String → ℕ → SandboxBackend
backend_after name n = record {
  name = name;
  isolation_level = "";
  enforcement_guarantee = "";
  run = λ c. some (result_after n c);
}

abbrev pub linux : Host
linux = record {
  system = "Linux";
  environ = [];
  seccomp_check = is_available true;
  seatbelt_check = Check.not_importable;
  seccomp_backend = backend_after "seccomp-bpf" 7;
  seatbelt_backend = backend_after "seatbelt" 7;
  subprocess_backend = backend_after "subprocess" 7;
}

abbrev pub request : Request
request = record {
  command = "npm" ∷ "install" ∷ [];
  policy = some no_net;
  timeout = none;
  cwd = none;
  env = none;
  backend = none;
  deterministic = true;
  allow_degraded = none;
}

-- As a hash the name of the policy serves, and texts are in lower case and stripped.
abbrev pub dumps : CanonicalPolicy → String
dumps p = p.name

abbrev pub same_text : String → String
same_text t = t
