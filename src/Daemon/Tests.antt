-- ===== src/Daemon/Tests.antt =====
-- Sample stores and requests, with a mark before a token for its hash, and the theorems at them.
use Prim.Native.String.{◌++◌ as str_append}
use pico_dome.Base.{ℕ, String, none, some, true, false, List, [], ◌∷◌, ◌≡◌, ◌⊎◌, refl, inr, arith}
use pico_dome.Base.Dict.{insert}
use pico_dome.Auth.Rbac.{empty_rbac, has_permission}
use pico_dome.Ratelimit.Limiter.{TokenBucketLimiter}
use pico_dome.Daemon.Job.{failed, no_changes}
use pico_dome.Daemon.Memory.{new_store, add, get}
use pico_dome.Daemon.Persistent
use pico_dome.Daemon.Persistent.{ensure_loaded}
use pico_dome.Daemon.Calls.{Call, adds, updates, run, run_restart}
use pico_dome.Daemon.Sample.{JobLine, blank, noise, format, format-IsJobFormat, empty_store}
use pico_dome.Daemon.Access.{Server, backend_unavailable, require_permission}
use pico_dome.Daemon.Grants.{IsAdmitted, IsUnprotected, require_permission_granted}
use pico_dome.Daemon.Route.{scans, handle_get}
use pico_dome.Daemon.Authorized.{IsAuthorized, handle_get-IsAuthorized}
use pico_dome.Daemon.Submit.{
  object, SubmitRequest, Scans, Sandbox, ran, refused, created, handle_submit_scan,
  validate_command,
}

abbrev hash : String → String
hash t = str_append "#" t

abbrev strip : String → String
strip t = t

abbrev limiter : TokenBucketLimiter
limiter = record {
  config = record {
    rate_per_second = 1;
    burst_size = 2;
    max_actors = 10;
    idle_timeout_seconds = 60;
    global_rps = 0;
  };
  buckets = [];
  global_bucket = none;
  last_cleanup = 0;
}

abbrev server : Server
server = record {
  auth = record {
    rbac = record { role_map = ("#secret", "admin") ∷ []; valid_hashes = "#secret" ∷ [] };
    token_hashes = "#secret" ∷ [];
    failed_attempts = [];
    is_enterprise = false;
  };
  rate_limiter = limiter;
  is_enterprise = false;
  dev_mode = false;
  audit = [];
}

abbrev bare : Server
bare = record server {
  auth = record {
    rbac = empty_rbac;
    token_hashes = [];
    failed_attempts = [];
    is_enterprise = false;
  };
}

run_bounded :
    (get "a"
      (add "2" "c" [] "u"
        (add "1" "b" [] "u" (add "0" "a" [] "u" (new_store {R = String} 2)).0).0).0)
    ≡ none
unfolding get add
run_bounded = refl

abbrev calls : List (Call String)
calls =
    adds "0" "a" ("npm" ∷ []) "u"
    ∷ updates "1" "a" (record no_changes { status = some failed })
    ∷ []

run_restart_example :
    let s = run format calls (ensure_loaded format empty_store) in
    let fresh = Persistent.new_store 9 s.store_file in
    ((i : String) → (Persistent.get format i fresh).1 ≡ (Persistent.get format i s).1)
    × ((limit : ℕ)
        → (Persistent.list_recent format limit fresh).1 ≡ (Persistent.list_recent format limit s).1)
unfolding run ensure_loaded Persistent.read_jobs
run_restart_example =
    run_restart format format-IsJobFormat 3 9 (some (blank ∷ noise ∷ [])) calls
      ([], refl, inr (omega arith)) (refl, (tt, tt)) (omega arith) (omega arith)

require_permission_granted_example :
    (has_permission hash "secret" "scan:submit"
        (require_permission hash strip 5 "scan:submit" "Bearer secret" server).0.auth.rbac
      ≡ true)
    × (IsUnprotected hash strip server "secret"
        ⊎ IsAdmitted hash strip 5 "Bearer secret" server "secret")
unfolding require_permission insert
require_permission_granted_example =
    require_permission_granted hash strip 5 "scan:submit" "Bearer secret" "secret" server refl

handle_get-IsAuthorized_example : IsAuthorized hash strip false 5 "Bearer secret" server scans
unfolding handle_get insert
handle_get-IsAuthorized_example =
    handle_get-IsAuthorized hash strip false 5 "Bearer secret" none "/api/v1/scans/" server scans
      refl

abbrev sandbox : Sandbox String String
sandbox = record {
  load_policy = λ name. none;
  default_policy = "default";
  is_available = λ name. false;
  sandbox_run =
      λ command policy backend. ran (record { result = "allow"; duration_ms = 7; findings = 0 });
  send_json = λ result. none;
}

abbrev scans_before : Scans String JobLine
scans_before = record {
  job_store = empty_store;
  scan_count = 0;
  scan_total_ms = 0;
  alert_count = 0;
}

abbrev request : String → SubmitRequest
request backend = record {
  content_length = some 40;
  json_type = true;
  body =
      object
        (record { command = some ("/usr/bin/npm" ∷ "ci" ∷ []); policy = ""; backend = backend });
}

-- A job whose backend is not available waits, and another is complete.
submit_run :
    (handle_submit_scan format sandbox false "1" "a" "u" (request "seatbelt") scans_before).1
    ≡ refused backend_unavailable
unfolding handle_submit_scan
submit_run = refl

submit_completed_run :
    (handle_submit_scan format sandbox false "1" "a" "u" (request "auto") scans_before).1
    ≡ created "allow"
unfolding handle_submit_scan
submit_completed_run = refl

-- The base name of the command is denied.
validate_run : validate_command false ("/bin/rm" ∷ "-r" ∷ []) ≡ false
unfolding validate_command
validate_run = refl
