-- ===== src/L4/Profiler.antt =====
-- l4/profiler.py: the profile of a run, from what its output shows. The matches of a regular expression, lower
-- case, `strip` and the numbers of texts are arguments.
pub mod Fresh
pub mod Timing
mod Tests
use Prim.Native.String.{◌++◌ as str_append}
use pico_dome.Base.{
  ℕ, suc, String, Option, none, some, Bool, true, false, not, ◌&&◌, List, [], ◌∷◌, ◌++◌, map,
  if◌then◌else◌,
}
use pico_dome.Base.Int.{ℤ, pos}
use pico_dome.Base.Text.{str_eq, contains}
use pico_dome.Base.Result.{get_or}
use pico_dome.L3.Run.{SandboxResult}
use pico_dome.L4.Models.{
  NetworkCall, DnsQuery, FileOperation, ProcessSpawn, TimingPoint, BehavioralProfile,
}

-- The first group of a match, and the second, which may be missing.
pub record Groups : Type 0 where
  pub first : String
  pub second : Option String

-- The loop over matches with `seen`: a candidate is kept if it passes and its key is new.
unfoldable pub fresh : {A : Type 0} → (A → String) → (A → Bool) → List String → List A → List A
unfolding contains
fresh key passes seen [] = []
fresh key passes seen (a ∷ rest) =
    let kept = a ∷ fresh key passes (key a ∷ seen) rest in
    let skipped = fresh key passes seen rest in
    if not (contains seen (key a)) && passes a then kept else skipped

abbrev pub text_length : String → ℕ
text_length String.[] = 0
text_length (String.◌∷◌ c s) = suc (text_length s)

unfoldable pub starts_with : String → String → Bool
starts_with String.[] s = true
starts_with (String.◌∷◌ c p) String.[] = false
starts_with (String.◌∷◌ c p) (String.◌∷◌ d s) =
    str_eq (String.◌∷◌ c "") (String.◌∷◌ d "") && starts_with p s

abbrev pub timing_pattern : String
timing_pattern = "\\[TIMING\\]\\s+(\\S+)\\s+(\\d+)\\s*ms"

abbrev pub call_pattern : String
call_pattern =
    "(?:connect|send|recv).*?((?:(?:25[0-5]|2[0-4]\\d|1\\d\\d|\\d{1,2})\\.){3}(?:25[0-5]|2[0-4]\\d|1\\d\\d|\\d{1,2}))(?::(\\d+))?"

abbrev pub dns_pattern : String
dns_pattern =
    "(?:getaddrinfo|gethostbyname|DNS|resolve).*?([a-zA-Z0-9](?:[a-zA-Z0-9-]{0,61}[a-zA-Z0-9])?\\.(?:[a-zA-Z]{2,}))"

abbrev pub fs_patterns : List (String × String)
fs_patterns =
    ("(?:open|reading|read)\\s+\"?([^\\s\"]+)\"?", "read")
    ∷ ("(?:write|writing|wrote|saving|saved)\\s+(?:to\\s+)?\\s*\"?([^\\s\"]+)\"?", "write")
    ∷ ("(?:create|creating|mkdir)\\s+\"?([^\\s\"]+)\"?", "create")
    ∷ ("(?:delete|deleting|remove|removing|rm|unlink)\\s+\"?([^\\s\"]+)\"?", "delete")
    ∷ ("chmod\\s+\\S+\\s+\"?([^\\s\"]+)\"?", "chmod")
    ∷ []

abbrev pub spawn_patterns : List String
spawn_patterns =
    "exec(?:uting)?:\\s*\"?([^\\s\"]+)\"?" ∷ "spawn(?:ing|ed)?:?\\s*\"?([^\\s\"]+)\"?"
    ∷ "subprocess\\.(?:run|Popen)\\s*\\(\\s*\\[?\"([^\\]]+)\"\\]?"
    ∷ "os\\.system\\s*\\(\\s*\"([^\"]+)\"" ∷ []

abbrev pub local_addresses : List String
local_addresses = "0.0.0.0" ∷ "127.0.0.1" ∷ "255.255.255.255" ∷ []

unfoldable pub is_remote : NetworkCall → Bool
unfolding contains
is_remote c = not (contains local_addresses c.address)

unfoldable pub is_named : DnsQuery → Bool
is_named q = not (str_eq q.hostname "localhost")

unfoldable pub is_no_device : FileOperation → Bool
unfolding starts_with
is_no_device op = not (starts_with "/dev/" op.path)

-- The matches are those of a case-insensitive search.
module _ (finditer : String → String → List Groups) (to_int : String → ℕ) (show : ℕ → String)
    (lower strip : String → String) where
  unfoldable pub timing_point : Groups → TimingPoint
  timing_point g = record {
    label = g.first;
    elapsed_ms = to_int (get_or g.second "");
    timestamp_ms = 0;
  }

  unfoldable pub extract_timing_points : String → List TimingPoint
  unfolding timing_point
  extract_timing_points output = map timing_point (finditer timing_pattern output)

  abbrev pub port_of : Option String → ℕ
  port_of none = 0
  port_of (some digits) = to_int digits

  unfoldable pub network_call : Groups → NetworkCall
  network_call g = record {
    address = g.first;
    port = port_of g.second;
    protocol = "tcp";
    bytes_sent = 0;
    bytes_received = 0;
    timestamp_ms = 0;
  }

  unfoldable pub call_key : NetworkCall → String
  call_key c = str_append c.address (str_append ":" (show c.port))

  unfoldable pub extract_network_calls : String → List NetworkCall
  unfolding fresh network_call call_key is_remote
  extract_network_calls output =
      fresh call_key is_remote [] (map network_call (finditer call_pattern output))

  unfoldable pub dns_query : Groups → DnsQuery
  dns_query g = record { hostname = lower g.first; resolved_ips = []; timestamp_ms = 0 }

  unfoldable pub extract_dns_queries : String → List DnsQuery
  unfolding fresh dns_query is_named
  extract_dns_queries output =
      fresh (λ q. q.hostname) is_named [] (map dns_query (finditer dns_pattern output))

  unfoldable pub file_operation : String → Groups → FileOperation
  file_operation op g = record {
    path = g.first;
    operation = op;
    success = true;
    bytes_transferred = 0;
    timestamp_ms = 0;
  }

  unfoldable pub file_candidates : List (String × String) → String → List FileOperation
  unfolding file_operation
  file_candidates [] output = []
  file_candidates ((p, op) ∷ rest) output =
      map (file_operation op) (finditer p output) ++ file_candidates rest output

  unfoldable pub extract_file_operations : String → List FileOperation
  unfolding fresh file_candidates is_no_device
  extract_file_operations output =
      fresh (λ op. op.path) is_no_device [] (file_candidates fs_patterns output)

  unfoldable pub process_spawn : Groups → ProcessSpawn
  process_spawn g = record {
    executable = strip g.first;
    args = strip g.first ∷ [];
    pid = 0;
    exit_code = none;
    timestamp_ms = 0;
  }

  unfoldable pub spawn_candidates : List String → String → List ProcessSpawn
  unfolding process_spawn
  spawn_candidates [] output = []
  spawn_candidates (p ∷ rest) output =
      map process_spawn (finditer p output) ++ spawn_candidates rest output

  unfoldable pub extract_spawns : String → List ProcessSpawn
  unfolding fresh spawn_candidates
  extract_spawns output =
      fresh (λ s. s.executable) (λ s. true) [] (spawn_candidates spawn_patterns output)

  abbrev pub package_of : List String → String
  package_of [] = "unknown"
  package_of (a ∷ []) = a
  package_of (a ∷ b ∷ rest) = str_append a (str_append "." b)

  abbrev pub entrypoint_of : List String → String
  entrypoint_of [] = ""
  entrypoint_of (a ∷ rest) = a

  unfoldable pub profile_from_sandbox_result : SandboxResult → BehavioralProfile
  unfolding extract_timing_points extract_network_calls extract_dns_queries extract_file_operations
      extract_spawns
  profile_from_sandbox_result result =
      let combined = str_append result.stdout (str_append "\n" result.stderr) in
      record {
        package_name = package_of result.command;
        timing_points = extract_timing_points combined;
        network_calls = extract_network_calls combined;
        dns_queries = extract_dns_queries combined;
        fs_ops = extract_file_operations combined;
        spawns = extract_spawns combined;
        entrypoint = entrypoint_of result.command;
        total_runtime_ms = result.duration_ms;
        exit_code = result.exit_code;
        stdout_len = text_length result.stdout;
        stderr_len = text_length result.stderr;
      }

  unfoldable pub profile_from_trace : String → String → BehavioralProfile
  unfolding extract_timing_points extract_network_calls extract_dns_queries extract_file_operations
      extract_spawns
  profile_from_trace trace_text name = record {
    package_name = name;
    timing_points = extract_timing_points trace_text;
    network_calls = extract_network_calls trace_text;
    dns_queries = extract_dns_queries trace_text;
    fs_ops = extract_file_operations trace_text;
    spawns = extract_spawns trace_text;
    entrypoint = "";
    total_runtime_ms = 0;
    exit_code = pos 0;
    stdout_len = 0;
    stderr_len = 0;
  }
