-- ===== src/L4/Tests.antt =====
-- Sample profiles and baselines, and the theorems at them. The digits are the ASCII ones, and a
-- pattern matches the paths that are equal to it.
use Prim.Native.Char.{Char, code}
use mathlib.Core.Option
use pico_dome.Base.{
  ℕ, String, none, some, Bool, ◌≢◌, All, true, false, ◌&&◌, [], ◌∷◌, leb, ◌≡◌, ◌↔◌, refl,
}
use pico_dome.Base.Int.{ℤ, pos, negsuc}
use pico_dome.Base.Dict.{Dict, values}
use pico_dome.Base.Text.{str_eq}
use pico_dome.L4.Models.{NetworkCall, BehavioralProfile, Baseline, DriftFlag}
use pico_dome.L4.Differ.{compare_profile_to_baseline}
use pico_dome.L4.Baselines.{shipped_baselines, load_baseline}
use pico_dome.L4.Best.{IsBest, find_best_baseline, find_best_baseline-IsBest}
use pico_dome.L4.Engine.{
  Severity, high, medium, low, suspicious, malicious, Finding, L4Engine, select_rules, find_all,
  run_rules, is_severe, is_medium, analyze,
}
use pico_dome.L4.Verdict.{IsReported, verdict, analyze_verdict}
use pico_dome.L4.Guard.{check_analysis, IsDeterministic, check_analysis-analyze}

abbrev is_digit : Char → Bool
is_digit c = leb b'0' (code c) && leb (code c) b'9'

abbrev call_to : String → NetworkCall
call_to address = record {
  address = address;
  port = 443;
  protocol = "tcp";
  bytes_sent = 0;
  bytes_received = 0;
  timestamp_ms = 0;
}

abbrev profile : BehavioralProfile
profile = record {
  package_name = "left-pad";
  timing_points = [];
  network_calls = call_to "10.0.0.1" ∷ call_to "evil.example" ∷ [];
  dns_queries = [];
  fs_ops = [];
  spawns = [];
  entrypoint = "npm";
  total_runtime_ms = 50;
  exit_code = pos 0;
  stdout_len = 0;
  stderr_len = 0;
}

abbrev baseline : String → ℤ → Baseline
baseline name calls = record {
  name = name;
  package_name = "*";
  version = "";
  expected_network_calls = calls;
  expected_dns_queries = pos 0;
  expected_fs_ops = negsuc 0;
  expected_spawns = pos 0;
  expected_runtime_ms_range = (pos 10, pos 20);
  allowed_domains = "npmjs.org" ∷ [];
  allowed_paths = [];
  notes = "";
}

abbrev baselines : Dict Baseline
baselines =
    ("narrow", baseline "narrow" (pos 1))
    ∷ ("open", record (baseline "open" (pos 9)) { allowed_domains = "*" ∷ [] })
    ∷ []

-- The call limit and the domain both count as the one network drift.
compare_run :
    let r = compare_profile_to_baseline is_digit str_eq profile (baseline "narrow" (pos 1)) in
    (r.score ≡ 2)
    × (r.details
        ≡ DriftFlag.network 2 (pos 1)
          ∷ DriftFlag.timing 50 (pos 10) (pos 20)
          ∷ DriftFlag.unexpected_domain "evil.example"
          ∷ [])
unfolding compare_profile_to_baseline
compare_run = (refl, refl)

find_best_baseline_run :
    Option.map {B = String × ℕ}
      (λ (b, r). (b.name, r.score))
      (find_best_baseline is_digit str_eq profile baselines)
    ≡ some ("open", 1)
unfolding find_best_baseline
find_best_baseline_run = refl

find_best_baseline-IsBest_example :
    IsBest is_digit str_eq profile 5
      (values baselines)
      (find_best_baseline is_digit str_eq profile baselines)
find_best_baseline-IsBest_example = find_best_baseline-IsBest is_digit str_eq profile baselines

shipped_run :
    Option.map {B = String} (λ b. b.package_name) (load_baseline "curl-wget" shipped_baselines)
    ≡ some "curl"
unfolding load_baseline
shipped_run = refl

abbrev finding : String → Severity → Finding
finding rule_id severity = record {
  rule_id = rule_id;
  severity = severity;
  message = "";
  location = "";
  evidence = [];
  finding_id = "";
}

-- One rule reports two findings, one raises an exception, and one reports a high finding.
abbrev engine : L4Engine
engine =
    ("L4-TIME", λ p b. some (finding "L4-TIME" low ∷ finding "L4-TIME" medium ∷ []))
    ∷ ("L4-FS", λ p b. none)
    ∷ ("L4-NET", λ p b. some (finding "L4-NET" high ∷ []))
    ∷ []

abbrev new_id : ℕ → String
new_id n = "f"

analyze_run :
    ((analyze is_digit str_eq 7 new_id true profile baselines [] engine).overall_verdict
      ≡ malicious)
    × ((analyze is_digit str_eq 7 new_id true profile baselines
          ("L4-TIME" ∷ "L4-FS" ∷ [])
          engine).overall_verdict
        ≡ suspicious)
    × ((analyze is_digit str_eq 7 new_id true profile baselines
          ("L4-TIME" ∷ [])
          engine).stats.findings_by_rule
        ≡ ("L4-TIME", 2) ∷ [])
unfolding analyze
analyze_run = (refl, refl, refl)

analyze_verdict_example :
    let selected = select_rules ("L4-TIME" ∷ "L4-FS" ∷ []) engine in
    let result =
      verdict is_digit str_eq 7 new_id false profile baselines ("L4-TIME" ∷ "L4-FS" ∷ []) engine in
    ((result ≡ malicious) ↔ IsReported is_severe profile baselines selected)
    × ((result ≡ suspicious) ↔ (
        IsReported is_medium profile baselines selected
        × ¬ IsReported is_severe profile baselines selected))
analyze_verdict_example =
    analyze_verdict is_digit str_eq 7 new_id false profile baselines ("L4-TIME" ∷ "L4-FS" ∷ [])
      engine

-- One text stands for the UUIDs, and one for the timestamps.
abbrev is_uuid : String → Bool
is_uuid = str_eq "f"

abbrev has_time : String → Bool
has_time = str_eq "2024-01-01T00:00:00"

abbrev text_of : Dict String → String
text_of d = ""

new_id_uuid : (n : ℕ) → (new_id n ≢ "") × (is_uuid (new_id n) ≡ true)
new_id_uuid n = (λ e. cc, refl)

check_analysis-analyze_example :
    let e = engine in
    let guard = check_analysis is_uuid is_uuid has_time text_of in
    ((deterministic : Bool)
      → (guard (analyze is_digit str_eq 7 new_id deterministic profile baselines [] e) ≡ [])
        ↔ All
            (IsDeterministic is_uuid is_uuid has_time text_of)
            (find_all new_id deterministic profile baselines (select_rules [] e)))
    × (guard (analyze is_digit str_eq 7 new_id false profile baselines [] e) ≡ []
        → All (λ f. f.finding_id ≢ "") (run_rules profile baselines (select_rules [] e)))
check_analysis-analyze_example =
    check_analysis-analyze is_uuid is_uuid has_time text_of new_id new_id_uuid is_digit str_eq 7
      profile baselines [] engine
