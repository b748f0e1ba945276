-- ===== src/L4/Timing.antt =====
-- l4/rules/timing.py: the detector of timing anomalies, and what it makes of the deterministic runs of the sandbox.
-- The texts of numbers, of a score and of drift flags are arguments.
mod Tests
use Prim.Native.Char.{Char}
use Prim.Native.String.{◌++◌ as str_append}
use mathlib.Core.List.Memᴰ
use pico_dome.Base.{
  ℕ, String, Option, none, some, Bool, true, false, ◌&&◌, List, [], ◌∷◌, ◌++◌, Memᴰ, ltb, is_empty,
  ◌≡◌, ◌≢◌, ◌↔◌, refl, arith, sym, ap, ◌∙◌, if◌then◌else◌,
}
use pico_dome.Base.Int.{ℤ, pos}
use pico_dome.Base.Dict.{Dict, values}
use pico_dome.L3.Hash.{CanonicalPolicy}
use pico_dome.L3.Run.{SandboxResult, SandboxBackend}
use pico_dome.L3.Engine.{Host, done, Request, sandbox_run, with_evidence}
use pico_dome.L3.Engine.Results.{deterministic_run-duration_ms}
use pico_dome.L4.Models.{TimingPoint, BehavioralProfile, Baseline, DriftFlag, DriftResult}
use pico_dome.L4.Best.{find_best_baseline}
use pico_dome.L4.Profiler.{Groups, profile_from_sandbox_result}
use pico_dome.L4.Engine.{
  Severity, high, medium, BehavioralVerdict, clean, suspicious, malicious, Finding, DetectorRule,
  L4Engine, select_rules, is_severe, is_medium, analyze,
}
use pico_dome.L4.Verdict.{IsReported, analyze_verdict}

-- `profile.exit_code == 0`
abbrev pub is_success : ℤ → Bool
is_success (pos ℕ.zero) = true
is_success _ = false

abbrev pub finding : String → Severity → String → String → Dict String → Finding
finding rule_id severity message location evidence = record {
  rule_id = rule_id;
  severity = severity;
  message = message;
  location = location;
  evidence = evidence;
  finding_id = "";
}

module _ (is_digit : Char → Bool) (fnmatch : String → String → Bool) (show show_score : ℕ → String)
    (describe : List DriftFlag → String) where
  abbrev pub fast_finding : BehavioralProfile → Finding
  fast_finding p =
      finding "L4-TIME-001" medium
        (str_append "Execution completed in "
          (str_append (show p.total_runtime_ms) "ms — unusually fast, possible no-op"))
        p.package_name (("runtime_ms", show p.total_runtime_ms) ∷ [])

  unfoldable pub check_fast : BehavioralProfile → List Finding
  check_fast p =
      if ltb p.total_runtime_ms 5 && is_success p.exit_code then fast_finding p ∷ [] else []

  unfoldable pub check_points : List TimingPoint → List Finding
  check_points [] = []
  check_points (t ∷ rest) =
      let later = check_points rest in
      if ltb 60000 t.elapsed_ms
      then finding "L4-TIME-002" medium
          (str_append "Timing point '" (
            str_append t.label (
              str_append "' took "
                (str_append (show t.elapsed_ms) "ms — potential busy-wait or sleep"))))
          t.label (("label", t.label) ∷ ("elapsed_ms", show t.elapsed_ms) ∷ [])
        ∷ later
      else later

  unfoldable pub drift_findings : BehavioralProfile → DriftResult → List Finding
  drift_findings p r =
      if r.timing_drift
      then finding "L4-TIME-003" high
          (str_append "Timing drift from baseline '"
            (str_append r.baseline_name (str_append "': " (describe r.details))))
          p.package_name
          (("drift_score", show_score r.score) ∷ ("details", describe r.details) ∷ [])
        ∷ []
      else []

  unfoldable pub check_drift : BehavioralProfile → Dict Baseline → List Finding
  unfolding find_best_baseline drift_findings
  check_drift p baselines =
      if is_empty baselines then [] else elim (find_best_baseline is_digit fnmatch p baselines) [
        | none ↦ []
        | some (_, r) ↦ drift_findings p r
      ]

  unfoldable pub detect_timing_anomalies : DetectorRule
  unfolding check_fast check_points check_drift
  detect_timing_anomalies p baselines =
      some (check_fast p ++ check_points p.timing_points ++ check_drift p baselines)

  fast_found :
      (p : BehavioralProfile)
      → p.total_runtime_ms ≡ 0
      → p.exit_code ≡ pos 0
      → check_fast p ≡ fast_finding p ∷ []
  unfolding check_fast
  fast_found p t x = ground (arith, t, x)

  check_fast-IsReported :
      (p : BehavioralProfile) (baselines : Dict Baseline) (e : L4Engine)
      → Memᴰ detect_timing_anomalies (values e)
      → p.total_runtime_ms ≡ 0
      → p.exit_code ≡ pos 0
      → IsReported is_medium p baselines e
  unfolding detect_timing_anomalies
  check_fast-IsReported p baselines e m t x = (
    detect_timing_anomalies,
    check_fast p ++ check_points p.timing_points ++ check_drift p baselines,
    fast_finding p,
    m,
    refl,
    rw (fast_found p t x) (Memᴰ.head refl),
    refl,
  )

module _ (is_digit : Char → Bool) (fnmatch : String → String → Bool) (show show_score : ℕ → String)
    (describe : List DriftFlag → String) (finditer : String → String → List Groups)
    (to_int : String → ℕ) (lower strip : String → String) {Bytes : Type 0}
    (dumps : CanonicalPolicy → Bytes) (sha256 : Bytes → String) where
  not_clean :
      (duration : ℕ) (new_id : ℕ → String) (deterministic : Bool) (p : BehavioralProfile)
      (baselines : Dict Baseline) (rules : List String) (e : L4Engine)
      → IsReported is_medium p baselines (select_rules rules e)
      → (analyze is_digit fnmatch duration new_id deterministic p baselines rules e).overall_verdict
        ≢ clean
  not_clean duration new_id deterministic p baselines rules e m c =
      let ((_, if_severe), (_, if_medium)) =
        analyze_verdict is_digit fnmatch duration new_id deterministic p baselines rules e in
      cc (sym c ∙ if_medium (m, λ s. cc (sym c ∙ if_severe s)))

  -- An analysis of a deterministic run that exits with 0, however long it took, is never clean if the detector of timing
  -- anomalies is one of the selected rules.
  pub deterministic_run_not_clean :
      (i t : String) (h : Host) (r : Request) (kept : Option SandboxBackend)
      (result : SandboxResult) (duration : ℕ) (new_id : ℕ → String) (deterministic : Bool)
      (baselines : Dict Baseline) (rules : List String) (e : L4Engine)
      → r.deterministic ≡ true
      → (sandbox_run dumps sha256 lower strip i t h r kept).1 ≡ done result
      → result.exit_code ≡ pos 0
      → Memᴰ
          (detect_timing_anomalies is_digit fnmatch show show_score describe)
          (values (select_rules rules e))
      → (analyze is_digit fnmatch duration new_id deterministic
          (profile_from_sandbox_result finditer to_int show lower strip result)
          baselines
          rules
          e).overall_verdict
        ≢ clean
  unfolding profile_from_sandbox_result
  deterministic_run_not_clean i t h r kept result duration new_id deterministic baselines rules e d
        ran x m =
      let p = profile_from_sandbox_result finditer to_int show lower strip result in
      let no_time =
        deterministic_run-duration_ms dumps sha256 lower strip i t h r kept result d ran in
      not_clean duration new_id deterministic p baselines rules e (
        check_fast-IsReported is_digit fnmatch show show_score describe p baselines
          (select_rules rules e) m no_time x)
