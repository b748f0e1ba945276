-- ===== src/L4/Profiler/Tests.antt =====
-- The theorems on profiles at a sample run.
use Prim.Native.Char.{Char}
use Prim.Native.String.{◌++◌ as str_append}
use pico_dome.Base.{
  ℕ, String, none, some, Bool, true, false, List, [], ◌∷◌, map, ◌≡◌, refl, if◌then◌else◌,
}
use pico_dome.Base.Int.{pos, negsuc, is_positive}
use pico_dome.Base.Text.{str_eq}
use pico_dome.L3.Run.{SandboxResult}
use pico_dome.L3.Engine.{call_of, sandbox_run, with_evidence}
use pico_dome.L3.Sample.{no_net, result_after, backend_after, linux, request, dumps, same_text}
use pico_dome.L4.Models.{Baseline}
use pico_dome.L4.Differ.{compare_profile_to_baseline}
use pico_dome.L4.Profiler.{
  Groups, call_pattern, dns_pattern, fs_patterns, spawn_patterns, is_remote, is_named, is_no_device,
  network_call, call_key, dns_query, file_candidates, spawn_candidates, extract_network_calls,
  profile_from_sandbox_result,
}
use pico_dome.L4.Profiler.Fresh.{IsFresh, profile_from_sandbox_result-IsFresh}
use pico_dome.L4.Profiler.Timing.{deterministic_run_drifts}

-- The calls found in any output: one is found twice, and one is local.
abbrev finditer : String → String → List Groups
finditer p output =
    if str_eq p call_pattern
    then record { first = "10.0.0.1"; second = some "443" }
      ∷ record { first = "127.0.0.1"; second = none }
      ∷ record { first = "10.0.0.1"; second = some "443" }
      ∷ []
    else []

abbrev to_int : String → ℕ
to_int t = 443

abbrev show : ℕ → String
show n = "443"

abbrev sample : SandboxResult
sample = result_after 7 (call_of request no_net)

extract_run :
    map (λ c. c.address) (extract_network_calls finditer to_int show same_text same_text "")
    ≡ "10.0.0.1" ∷ []
unfolding extract_network_calls
extract_run = refl

profile_from_sandbox_result-IsFresh_example :
    let output = str_append sample.stdout (str_append "\n" sample.stderr) in
    let p = profile_from_sandbox_result finditer to_int show same_text same_text sample in
    IsFresh
      (call_key finditer to_int show same_text same_text)
      is_remote
      (map (network_call finditer to_int show same_text same_text) (finditer call_pattern output))
      p.network_calls
    × IsFresh
        (λ q. q.hostname)
        is_named
        (map (dns_query finditer to_int show same_text same_text) (finditer dns_pattern output))
        p.dns_queries
    × IsFresh
        (λ op. op.path)
        is_no_device
        (file_candidates finditer to_int show same_text same_text fs_patterns output)
        p.fs_ops
    × IsFresh
        (λ s. s.executable)
        (λ s. true)
        (spawn_candidates finditer to_int show same_text same_text spawn_patterns output)
        p.spawns
profile_from_sandbox_result-IsFresh_example =
    profile_from_sandbox_result-IsFresh finditer to_int show same_text same_text sample

abbrev no_digits : Char → Bool
no_digits c = false

abbrev slow : Baseline
slow = record {
  name = "npm-install";
  package_name = "*";
  version = "";
  expected_network_calls = negsuc 0;
  expected_dns_queries = negsuc 0;
  expected_fs_ops = negsuc 0;
  expected_spawns = negsuc 0;
  expected_runtime_ms_range = (pos 5, pos 60000);
  allowed_domains = [];
  allowed_paths = [];
  notes = "";
}

-- The run takes 7 ms, which the baseline allows; its deterministic result is flagged.
deterministic_run_drifts_example :
    (compare_profile_to_baseline no_digits str_eq
      (profile_from_sandbox_result finditer to_int show same_text same_text (
        with_evidence dumps same_text same_text same_text "r" "t" true
          (backend_after "seccomp-bpf" 7)
          no_net
          sample))
      slow).timing_drift
    ≡ true
unfolding sandbox_run is_positive
deterministic_run_drifts_example =
    deterministic_run_drifts no_digits str_eq finditer to_int show same_text same_text dumps
      same_text "r" "t" linux request none
      (with_evidence dumps same_text same_text same_text "r" "t" true
        (backend_after "seccomp-bpf" 7) no_net sample)
      slow refl refl
