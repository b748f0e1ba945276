-- ===== src/L3/Subprocess.antt =====
-- l3/backends/subprocess_backend.py: `SubprocessBackend`. What a process does, the matches of a regular
-- expression, `strip` and the text of a number of seconds are arguments; time is in milliseconds.
pub mod Verdicts
pub mod Quiet
mod Tests
use Prim.Native.String.{◌++◌ as str_append}
use pico_dome.Base.{
  ℕ, zero, suc, String, Option, none, some, Bool, true, false, not, ◌&&◌, ◌||◌, List, [], ◌∷◌, ◌++◌,
  is_empty, any, filter, if◌then◌else◌,
}
use pico_dome.Base.Int.{ℤ, negsuc}
use pico_dome.Base.Text.{str_eq, contains}
use pico_dome.Base.Dict.{Dict}
use pico_dome.Base.Result.{get_or}
use pico_dome.L3.Models.{SyscallAction, RuleTarget, PolicyRule, Policy}
use pico_dome.L3.Patterns.{
  ip_pattern, url_pattern, local_addresses, write_indicators, spawn_patterns, Suspicion, suspicions,
}
use pico_dome.L3.Run.{Verdict, allow, deny, kill, SandboxEvent, SandboxResult, SandboxBackend, Call}

-- A match with its text and that of its first group, if the expression has groups.
pub record Match : Type 0 where
  pub whole : String
  pub group : Option String

-- `match.group(1) if match.lastindex else match.group(0)`
unfoldable pub named_part : Match → String
named_part x = get_or x.group x.whole

unfoldable pub take_text : ℕ → String → String
take_text zero s = ""
take_text (suc n) String.[] = ""
take_text (suc n) (String.◌∷◌ c s) = String.◌∷◌ c (take_text n s)

-- What a process that is started comes to: it ends, is killed at the time limit, or cannot be started. Any other
-- exception is `failed`.
pub data Process : Type 0 where
  exited : ℤ → String → String → Process
  timed_out : String → String → Process
  not_found : Process
  not_permitted : String → Process
  failed : Process

abbrev pub is_deny : SyscallAction → Bool
is_deny SyscallAction.deny = true
is_deny _ = false

unfoldable pub rule_verdict : PolicyRule → Verdict
rule_verdict rule = if is_deny rule.action then deny else allow

abbrev pub event : String → Verdict → String → String → SandboxEvent
event rule_id verdict operation detail = record {
  rule_id = rule_id;
  verdict = verdict;
  operation = operation;
  detail = detail;
  path = "";
  address = "";
  timestamp_ms = 0;
}

abbrev pub safe_vars : List String
safe_vars =
    "PATH" ∷ "HOME" ∷ "USER" ∷ "LANG" ∷ "LC_ALL" ∷ "LC_CTYPE" ∷ "TERM" ∷ "TMPDIR" ∷ "TEMP" ∷ "TMP"
    ∷ "LD_LIBRARY_PATH" ∷ "DYLD_LIBRARY_PATH" ∷ "PYTHONPATH" ∷ "PYTHONHOME" ∷ "PYTHONIOENCODING"
    ∷ "NODE_PATH" ∷ "NPM_CONFIG_PREFIX" ∷ "PICODOME_SANDBOX_BACKEND" ∷ "PICODOME_ALLOW_DEGRADED"
    ∷ []

-- The environment of the process: the caller's, or what of the daemon's own is known to be safe.
unfoldable pub run_env : Dict String → Option (Dict String) → Dict String
unfolding filter contains
run_env environ none = filter (λ (k, v). contains safe_vars k) environ
run_env environ (some env) = env

-- `timeout or 30.0`
abbrev pub effective_timeout : Option ℕ → ℕ
effective_timeout none = 30000
effective_timeout (some zero) = 30000
effective_timeout (some (suc n)) = suc n

-- The first event that is not allowed decides.
unfoldable pub first_verdict : List SandboxEvent → Verdict
first_verdict [] = allow
first_verdict (e ∷ es) = elim e.verdict [ kill ↦ kill | deny ↦ deny | allow ↦ first_verdict es ]

abbrev pub is_failure_code : ℤ → Bool
is_failure_code (negsuc zero) = true
is_failure_code _ = false

unfoldable pub compute_verdict : List SandboxEvent → ℤ → Verdict
unfolding first_verdict any
compute_verdict events exit_code =
    if is_failure_code exit_code && any (λ e. str_eq e.rule_id "L3-TIMEOUT-001") events
    then kill
    else first_verdict events

module _ (finditer : String → String → List Match) where
  -- `re.search`
  unfoldable pub search_for : String → String → Bool
  search_for p output = not (is_empty (finditer p output))

  unfoldable pub address_events :
      String → PolicyRule → (String → String) → List Match → List SandboxEvent
  unfolding rule_verdict
  address_events prefix rule shorten [] = []
  address_events prefix rule shorten (x ∷ xs) =
      record (event rule.rule_id (rule_verdict rule) "network_outbound"
        (str_append prefix (shorten x.whole))) { address = shorten x.whole }
      ∷ address_events prefix rule shorten xs

  unfoldable pub check_network : String → PolicyRule → List SandboxEvent
  unfolding address_events contains filter take_text
  check_network output rule =
      address_events "IP address found: " rule (λ t. t)
        (filter (λ x. not (contains local_addresses x.whole)) (finditer ip_pattern output))
      ++ address_events "URL found: " rule (take_text 100) (finditer url_pattern output)

  unfoldable pub write_events : String → PolicyRule → List Match → List SandboxEvent
  unfolding rule_verdict named_part
  write_events op rule [] = []
  write_events op rule (x ∷ xs) =
      record (event rule.rule_id (rule_verdict rule) op
        (str_append "Write detected: " (named_part x))) { path = named_part x }
      ∷ write_events op rule xs

  unfoldable pub check_file_write : List (String × String) → String → PolicyRule → List SandboxEvent
  unfolding write_events
  check_file_write [] output rule = []
  check_file_write ((p, op) ∷ rest) output rule =
      write_events op rule (finditer p output) ++ check_file_write rest output rule

  unfoldable pub spawn_events : PolicyRule → List Match → List SandboxEvent
  unfolding rule_verdict named_part
  spawn_events rule [] = []
  spawn_events rule (x ∷ xs) =
      event rule.rule_id (rule_verdict rule) "process_spawn"
        (str_append "Process spawn detected: " (named_part x))
      ∷ spawn_events rule xs

  unfoldable pub check_process_spawn : List String → String → PolicyRule → List SandboxEvent
  unfolding spawn_events
  check_process_spawn [] output rule = []
  check_process_spawn (p ∷ rest) output rule =
      spawn_events rule (finditer p output) ++ check_process_spawn rest output rule

  unfoldable pub check_suspicious : List Suspicion → String → List SandboxEvent
  unfolding search_for
  check_suspicious [] combined = []
  check_suspicious (s ∷ rest) combined =
      let later = check_suspicious rest combined in
      if search_for s.pattern_text combined
      then event s.rule_id s.verdict s.operation (str_append "Pattern matched: " s.pattern_text)
        ∷ later
      else later

  unfoldable pub check_rule : String → PolicyRule → List SandboxEvent
  unfolding check_network check_file_write check_process_spawn
  check_rule combined rule = elim rule.target [
    | RuleTarget.network_out ↦ check_network combined rule
    | RuleTarget.network_in ↦ check_network combined rule
    | RuleTarget.file_write ↦ check_file_write write_indicators combined rule
    | RuleTarget.process_spawn ↦ check_process_spawn spawn_patterns combined rule
    | _ ↦ []
  ]

  unfoldable pub check_rules : String → List PolicyRule → List SandboxEvent
  unfolding check_rule
  check_rules combined [] = []
  check_rules combined (rule ∷ rules) = check_rule combined rule ++ check_rules combined rules

  unfoldable pub analyze_output : String → String → Policy → List SandboxEvent
  unfolding check_rules check_suspicious
  analyze_output stdout stderr policy =
      check_rules (str_append stdout (str_append "\n" stderr)) policy.rules
      ++ check_suspicious suspicions (str_append stdout stderr)

  module _ (strip : String → String) (seconds : ℕ → String)
      (popen : List String → Option String → Dict String → ℕ → Process) (environ : Dict String)
      (elapsed : ℕ) where
    unfoldable pub result_of : Call → List SandboxEvent → ℤ → String → String → SandboxResult
    unfolding compute_verdict
    result_of c events exit_code stdout stderr = record {
      run_id = "";
      timestamp = "";
      backend = "";
      policy_hash = "";
      policy_version = "";
      command = c.command;
      overall_verdict = compute_verdict events exit_code;
      exit_code = exit_code;
      duration_ms = elapsed;
      events = events;
      policy_name = c.policy.name;
      backend_name = "subprocess";
      isolation_level = "observational_only";
      enforcement_guarantee = "best_effort";
      degraded = false;
      stdout = stdout;
      stderr = stderr;
    }

    abbrev pub command_name : List String → String
    command_name [] = "?"
    command_name (c ∷ cs) = c

    unfoldable pub timed : SandboxEvent → SandboxEvent
    timed e = record e { timestamp_ms = elapsed }

    unfoldable pub events_of : Call → Process → Option (List SandboxEvent)
    unfolding analyze_output timed
    events_of c failed = none
    events_of c (exited code out errors) = some (analyze_output (strip out) (strip errors) c.policy)
    events_of c (timed_out out errors) = some (
        timed (
          event "L3-TIMEOUT-001" kill "process_timeout" (
            str_append "Process exceeded "
              (str_append (seconds (effective_timeout c.timeout)) "s timeout")))
        ∷ analyze_output (strip out) (strip errors) c.policy)
    events_of c not_found = some (
        timed (
          event "L3-EXEC-001" deny "exec_not_found"
            (str_append "Command not found: " (command_name c.command)))
        ∷ [])
    events_of c (not_permitted text) =
        some (timed (event "L3-EXEC-002" deny "exec_permission_denied" text) ∷ [])

    abbrev pub exit_code_of : Process → ℤ
    exit_code_of (exited code out errors) = code
    exit_code_of _ = negsuc 0

    abbrev pub output_of : Process → String × String
    output_of (exited code out errors) = (strip out, strip errors)
    output_of (timed_out out errors) = (strip out, strip errors)
    output_of _ = ("", "")

    unfoldable pub run : Call → Option SandboxResult
    unfolding events_of result_of run_env
    run c =
        let process = popen c.command c.cwd (run_env environ c.env) (effective_timeout c.timeout) in
        elim (events_of c process) [
          | none ↦ none
          | some events ↦ some (
              result_of c events (exit_code_of process) (output_of process).0 (output_of process).1)
        ]

    abbrev pub subprocess_backend : SandboxBackend
    subprocess_backend = record {
      name = "subprocess";
      isolation_level = "observational_only";
      enforcement_guarantee = "best_effort";
      run = run;
    }
