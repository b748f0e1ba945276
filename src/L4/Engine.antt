-- ===== src/L4/Engine.antt =====
-- l4/engine.py and models.py: `L4Engine`, its findings and its verdict. The built-in rules, the clock and
-- new ids are arguments; a rule that raises an exception gives `none`, and one that takes no baselines does not
-- look at them. The values of a finding's evidence are texts.
use Prim.Native.Char.{Char}
use pico_dome.Base.{
  ℕ, ◌+◌, String, Option, none, some, Bool, true, false, List, [], ◌∷◌, ◌++◌, is_empty, any,
  if◌then◌else◌,
}
use pico_dome.Base.Text.{str_eq, str_leb, contains}
use pico_dome.Base.Dict.{Dict, lookup, insert, pop}
use pico_dome.Base.Sort.{sort_by}
use pico_dome.Base.Result.{get_or}
use pico_dome.L4.Models.{BehavioralProfile, Baseline, DriftResult}
use pico_dome.L4.Best.{find_best_baseline}

pub data Severity : Type 0 where
  critical high medium low info : Severity

pub data BehavioralVerdict : Type 0 where
  clean suspicious malicious : BehavioralVerdict

pub record Finding : Type 0 where
  pub rule_id : String
  pub severity : Severity
  pub message : String
  pub location : String
  pub evidence : Dict String
  pub finding_id : String

pub record ScanStats : Type 0 where
  pub packages_scanned : ℕ
  pub files_scanned : ℕ
  pub duration_ms : ℕ
  pub findings_by_severity : Dict ℕ
  pub findings_by_rule : Dict ℕ

pub record AnalysisResult : Type 0 where
  pub target : String
  pub findings : List Finding
  pub profile : Option BehavioralProfile
  pub drift_results : List DriftResult
  pub overall_verdict : BehavioralVerdict
  pub stats : ScanStats

abbrev pub severity_value : Severity → String
severity_value critical = "CRITICAL"
severity_value high = "HIGH"
severity_value medium = "MEDIUM"
severity_value low = "LOW"
severity_value info = "INFO"

abbrev pub DetectorRule : Type 0
DetectorRule = BehavioralProfile → Dict Baseline → Option (List Finding)

-- `L4Engine`, the rules by their ids
abbrev pub L4Engine : Type 0
L4Engine = Dict DetectorRule

unfoldable pub register : String → DetectorRule → L4Engine → L4Engine
unfolding insert
register rule_id rule e = insert rule_id rule e

unfoldable pub unregister : String → L4Engine → L4Engine
unfolding pop
unregister rule_id e = pop rule_id e

unfoldable pub keys : L4Engine → List String
keys [] = []
keys ((k, r) ∷ e) = k ∷ keys e

unfoldable pub list_rules : L4Engine → List String
unfolding keys sort_by str_leb
list_rules e = sort_by str_leb (keys e)

unfoldable pub keep_rules : List String → L4Engine → L4Engine
unfolding contains
keep_rules rules [] = []
keep_rules rules ((k, r) ∷ e) =
    let rest = keep_rules rules e in if contains rules k then (k, r) ∷ rest else rest

-- Without a list of rules, or with an empty one, all are selected.
unfoldable pub select_rules : List String → L4Engine → L4Engine
unfolding keep_rules
select_rules rules e = if is_empty rules then e else keep_rules rules e

-- The loop over the selected rules; a rule that raises an exception adds nothing.
unfoldable pub run_rules : BehavioralProfile → Dict Baseline → L4Engine → List Finding
run_rules p baselines [] = []
run_rules p baselines ((k, r) ∷ e) =
    let rest = run_rules p baselines e in
    elim (r p baselines) [ none ↦ rest | some findings ↦ findings ++ rest ]

-- Ids for the findings that have none, from the number of the next.
unfoldable pub fill_ids : (ℕ → String) → ℕ → List Finding → List Finding
fill_ids new_id n [] = []
fill_ids new_id n (f ∷ fs) =
    let rest = fill_ids new_id (n + 1) fs in
    (if str_eq f.finding_id "" then record f { finding_id = new_id n } else f) ∷ rest

abbrev pub is_severe : Severity → Bool
is_severe critical = true
is_severe high = true
is_severe _ = false

abbrev pub is_medium : Severity → Bool
is_medium medium = true
is_medium _ = false

unfoldable pub compute_verdict : List Finding → BehavioralVerdict
unfolding any
compute_verdict [] = clean
compute_verdict (f ∷ fs) =
    if any (λ g. is_severe g.severity) (f ∷ fs)
    then malicious
    else if any (λ g. is_medium g.severity) (f ∷ fs)
    then suspicious
    else clean

-- `d[key] = d.get(key, 0) + 1` for each finding
unfoldable pub count_by : (Finding → String) → Dict ℕ → List Finding → Dict ℕ
unfolding lookup insert
count_by key d [] = d
count_by key d (f ∷ fs) = count_by key (insert (key f) (get_or (lookup (key f) d) 0 + 1) d) fs

abbrev pub no_stats : ScanStats
no_stats = record {
  packages_scanned = 0;
  files_scanned = 0;
  duration_ms = 0;
  findings_by_severity = [];
  findings_by_rule = [];
}

-- The findings of the rules, with their ids where these are asked for.
unfoldable pub find_all :
    (ℕ → String) → Bool → BehavioralProfile → Dict Baseline → L4Engine → List Finding
unfolding run_rules fill_ids
find_all new_id deterministic p baselines selected =
    let findings = run_rules p baselines selected in
    if deterministic then findings else fill_ids new_id 0 findings

-- The result where no rule is selected.
unfoldable pub no_rules : BehavioralProfile → AnalysisResult
no_rules p = record {
  target = p.package_name;
  findings = [];
  profile = some p;
  drift_results = [];
  overall_verdict = clean;
  stats = no_stats;
}

module _ (is_digit : Char → Bool) (fnmatch : String → String → Bool) where
  unfoldable pub drift_results_of : BehavioralProfile → Dict Baseline → List DriftResult
  unfolding find_best_baseline
  drift_results_of p baselines = elim (find_best_baseline is_digit fnmatch p baselines) [
    | none ↦ []
    | some (_, drift) ↦ drift ∷ []
  ]

  unfoldable pub result_of : ℕ → BehavioralProfile → Dict Baseline → List Finding → AnalysisResult
  unfolding drift_results_of compute_verdict count_by
  result_of duration p baselines findings = record {
    target = p.package_name;
    findings = findings;
    profile = some p;
    drift_results = drift_results_of p baselines;
    overall_verdict = compute_verdict findings;
    stats = record no_stats {
      duration_ms = duration;
      findings_by_severity = count_by (λ f. severity_value f.severity) [] findings;
      findings_by_rule = count_by (λ f. f.rule_id) [] findings;
    };
  }

  -- The baselines are given, and the list of rules is empty for all rules.
  unfoldable pub analyze :
      ℕ
      → (ℕ → String)
      → Bool
      → BehavioralProfile
      → Dict Baseline
      → List String
      → L4Engine
      → AnalysisResult
  unfolding select_rules find_all result_of
  analyze duration new_id deterministic p baselines rules e =
      let selected = select_rules rules e in
      if is_empty selected
      then no_rules p
      else result_of duration p baselines (find_all new_id deterministic p baselines selected)
