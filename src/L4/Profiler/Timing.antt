-- ===== src/L4/Profiler/Timing.antt =====
-- l3/engine.py, l4/profiler.py and l4/differ.py: what becomes of the time of a deterministic run.
use Prim.Native.Char.{Char}
use pico_dome.Base.{ℕ, String, Option, Bool, true, List, ◌≡◌, arith, ◌∙◌}
use pico_dome.Base.Int.{ℤ, pos, is_positive, negsuc}
use pico_dome.L3.Hash.{CanonicalPolicy}
use pico_dome.L3.Run.{SandboxResult, SandboxBackend}
use pico_dome.L3.Engine.{Host, done, Request, sandbox_run}
use pico_dome.L3.Engine.Results.{deterministic_run-duration_ms}
use pico_dome.L4.Models.{Baseline}
use pico_dome.L4.Differ.{out_of_range, compare_profile_to_baseline}
use pico_dome.L4.Drift.{compare_profile_to_baseline_drifts}
use pico_dome.L4.Profiler.{Groups, profile_from_sandbox_result}

out_of_range_zero : (low high : ℤ) → out_of_range 0 low high ≡ is_positive low
unfolding out_of_range is_positive
out_of_range_zero (pos n) (pos m) = ground arith
out_of_range_zero (pos n) (negsuc m) = ground arith
out_of_range_zero (negsuc n) (pos m) = ground arith
out_of_range_zero (negsuc n) (negsuc m) = ground arith

module _ (is_digit : Char → Bool) (fnmatch : String → String → Bool)
    (finditer : String → String → List Groups) (to_int : String → ℕ) (show : ℕ → String)
    (lower strip : String → String) {Bytes : Type 0} (dumps : CanonicalPolicy → Bytes)
    (sha256 : Bytes → String) where
  -- The profile of a deterministic run drifts in its time from each baseline whose least time is positive, and from no
  -- other, whatever time the run took.
  pub deterministic_run_drifts :
      (i t : String) (h : Host) (r : Request) (kept : Option SandboxBackend)
      (result : SandboxResult) (b : Baseline)
      → r.deterministic ≡ true
      → (sandbox_run dumps sha256 lower strip i t h r kept).1 ≡ done result
      → (compare_profile_to_baseline is_digit fnmatch
          (profile_from_sandbox_result finditer to_int show lower strip result)
          b).timing_drift
        ≡ is_positive b.expected_runtime_ms_range.0
  unfolding profile_from_sandbox_result
  deterministic_run_drifts i t h r kept result b d e =
      let zero_time =
        deterministic_run-duration_ms dumps sha256 lower strip i t h r kept result d e in
      let (_, _, _, _, timing) =
        compare_profile_to_baseline_drifts
          (profile_from_sandbox_result finditer to_int show lower strip result) b is_digit
          fnmatch in
      timing
      ∙ rw zero_time (out_of_range_zero b.expected_runtime_ms_range.0 b.expected_runtime_ms_range.1)
