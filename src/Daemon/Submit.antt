-- ===== src/Daemon/Submit.antt =====
-- daemon/server.py: `_validate_command` and `_handle_submit_scan`, over the persistent store. Loading a
-- policy, whether a backend is available and the run of the sandbox with its analysis are arguments.
use pico_dome.Base.{
  ℕ, ◌+◌, String, Option, none, some, Bool, false, not, ◌&&◌, List, [], ◌∷◌, ltb, if◌then◌else◌,
}
use pico_dome.Base.Text.{str_eq, contains}
use pico_dome.Daemon.Access.{
  ErrorCode, invalid_json, missing_command, command_denied, request_too_large,
  enterprise_enforcement, invalid_backend, backend_unavailable, scan_failed,
}
use pico_dome.Daemon.Job.{completed, failed, Changes, no_changes}
use pico_dome.Daemon.Persistent.{JobFormat, PersistentScanJobStore, add, update}
use pico_dome.Daemon.Route.{last_segment, max_request_size}

abbrev pub allowed_commands : List String
allowed_commands =
    "echo" ∷ "printf" ∷ "cat" ∷ "head" ∷ "tail" ∷ "sort" ∷ "wc" ∷ "grep" ∷ "jq" ∷ "yq" ∷ "npm"
    ∷ "npx" ∷ "yarn" ∷ "pnpm" ∷ "pip" ∷ "pip3" ∷ "cargo" ∷ "go" ∷ "mvn" ∷ "gradle" ∷ "make"
    ∷ "cmake" ∷ "dotnet" ∷ "gem" ∷ "bundle" ∷ "php" ∷ "composer" ∷ []

abbrev pub denied_commands : List String
denied_commands =
    "rm" ∷ "rmdir" ∷ "mkfs" ∷ "dd" ∷ "format" ∷ "shutdown" ∷ "reboot" ∷ "halt" ∷ "poweroff"
    ∷ "passwd" ∷ "useradd" ∷ "userdel" ∷ "usermod" ∷ "groupadd" ∷ "groupdel" ∷ "iptables"
    ∷ "ip6tables" ∷ "nft" ∷ "systemctl" ∷ "service" ∷ "mount" ∷ "umount" ∷ "crontab" ∷ "ssh"
    ∷ "telnet" ∷ "nc" ∷ "ncat" ∷ "curl" ∷ "wget" ∷ "bash" ∷ "sh" ∷ "zsh" ∷ "fish" ∷ "python"
    ∷ "python3" ∷ "perl" ∷ "ruby" ∷ "node" ∷ "sudo" ∷ "su" ∷ "doas" ∷ "chmod" ∷ "chown" ∷ "chgrp"
    ∷ "chattr" ∷ []

-- Whether the command passes; the text of the error is left out.
unfoldable pub validate_command : Bool → List String → Bool
unfolding last_segment contains
validate_command is_enterprise [] = false
validate_command is_enterprise (base ∷ rest) =
    if is_enterprise
    then contains allowed_commands (last_segment base)
    else not (contains denied_commands (last_segment base))

-- The object of a request's body; a missing command, or one that is no list, is `none`, and the command
-- is a list of texts.
pub record SubmitData : Type 0 where
  pub command : Option (List String)
  pub policy : String
  pub backend : String

-- The body, as `json.loads` reads it. Of a value that is no object, `data.get` raises an exception, and so
-- does `_validate_command` of a list that does not begin with a text.
pub data SubmitBody : Type 0 where
  no_json unreadable : SubmitBody
  object : SubmitData → SubmitBody

pub record SubmitRequest : Type 0 where
  pub content_length : Option ℕ
  -- no type is given, or it contains application/json
  pub json_type : Bool
  pub body : SubmitBody

-- What a scan gives back, for the counts and the answer.
pub record ScanOutcome (R : Type 0) : Type 0 where
  pub result : R
  pub duration_ms : ℕ
  pub findings : ℕ

-- `raised` is an exception with its text.
pub data Run (R : Type 0) : Type 0 where
  ran : ScanOutcome R → Run R
  raised : String → Run R

-- `unanswered` is an exception that leaves the handler.
pub data Answer (R : Type 0) : Type 0 where
  unanswered : Answer R
  refused : ErrorCode → Answer R
  created : R → Answer R

-- The store and the counters of the handler class.
pub record Scans (R Line : Type 0) : Type 0 where
  pub job_store : PersistentScanJobStore R Line
  pub scan_count : ℕ
  pub scan_total_ms : ℕ
  pub alert_count : ℕ

pub record Sandbox (R Policy : Type 0) : Type 0 where
  pub load_policy : String → Option Policy
  pub default_policy : Policy
  -- the module can be imported and its backend is available
  pub is_available : String → Bool
  pub sandbox_run : List String → Policy → String → Run R
  -- `_send_json` of the result: the text of the exception that it raises, if any
  pub send_json : R → Option String

abbrev pub done_with : {R : Type 0} → String → ScanOutcome R → Changes R
done_with now o = record no_changes {
  status = some completed;
  completed_at = some now;
  result = some o.result;
}

abbrev pub failed_with : {R : Type 0} → String → String → Changes R
failed_with now message = record no_changes {
  status = some failed;
  completed_at = some now;
  error = some message;
}

-- `int(headers.get("Content-Length", 0))`
abbrev pub length_of : Option ℕ → ℕ
length_of none = 0
length_of (some n) = n

module _ {R Policy Line : Type 0} (f : JobFormat R Line) (x : Sandbox R Policy) where
  unfoldable pub resolve_policy : String → Policy
  resolve_policy name =
      if str_eq name ""
      then x.default_policy
      else elim (x.load_policy name) [ none ↦ x.default_policy | some p ↦ p ]

  -- The error of a backend that cannot be taken.
  unfoldable pub backend_error : Bool → String → Option ErrorCode
  unfolding contains
  backend_error is_enterprise name =
      if is_enterprise && str_eq name "subprocess"
      then some enterprise_enforcement
      else if str_eq name "auto"
      then none
      else if not (contains ("subprocess" ∷ "seccomp-bpf" ∷ "seatbelt" ∷ []) name)
      then some invalid_backend
      else if x.is_available name
      then none
      else some backend_unavailable

  -- `except Exception`
  unfoldable pub fail_job : String → String → String → Scans R Line → Scans R Line × Answer R
  unfolding update
  fail_job now job_id message s = (
    record s { job_store = (update f now job_id (failed_with now message) s.job_store).0 },
    refused scan_failed,
  )

  -- The scan of a job that is in the store.
  unfoldable pub run_job :
      String → String → List String → Policy → String → Scans R Line → Scans R Line × Answer R
  unfolding update fail_job
  run_job now job_id command policy backend s = elim (x.sandbox_run command policy backend) [
    | raised message ↦ fail_job now job_id message s
    | ran o ↦
        let s' : Scans R Line = record s {
          job_store = (update f now job_id (done_with now o) s.job_store).0;
          scan_count = s.scan_count + 1;
          scan_total_ms = s.scan_total_ms + o.duration_ms;
          alert_count = s.alert_count + o.findings;
        } in
        elim (x.send_json o.result) [
          | none ↦ (s', created o.result)
          | some message ↦ fail_job now job_id message s'
        ]
  ]

  -- What follows when the command has passed.
  unfoldable pub start_job :
      Bool
      → String
      → String
      → String
      → List String
      → SubmitData
      → Scans R Line
      → Scans R Line × Answer R
  unfolding add resolve_policy backend_error run_job
  start_job is_enterprise now job_id actor command parsed s =
      let s' : Scans R Line = record s {
        job_store = (add f now job_id command actor s.job_store).0;
      } in
      let policy = resolve_policy parsed.policy in
      elim (backend_error is_enterprise parsed.backend) [
        | some e ↦ (s', refused e)
        | none ↦ run_job now job_id command policy parsed.backend s'
      ]

  unfoldable pub handle_submit_scan :
      Bool → String → String → String → SubmitRequest → Scans R Line → Scans R Line × Answer R
  unfolding validate_command start_job
  handle_submit_scan is_enterprise now job_id actor r s =
      if ltb max_request_size (length_of r.content_length)
      then (s, refused request_too_large)
      else if not r.json_type
      then (s, refused invalid_json)
      else elim r.body [
        | no_json ↦ (s, refused invalid_json)
        | unreadable ↦ (s, unanswered)
        | object parsed ↦ elim parsed.command [
          | none ↦ (s, refused missing_command)
          | some [] ↦ (s, refused missing_command)
          | some (c ∷ cs) ↦
              if validate_command is_enterprise (c ∷ cs)
              then start_job is_enterprise now job_id actor (c ∷ cs) parsed s
              else (s, refused command_denied)
        ]
      ]
