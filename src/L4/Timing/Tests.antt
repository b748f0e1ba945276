-- ===== src/L4/Timing/Tests.antt =====
-- The theorem on deterministic runs at a sample run.
use Prim.Native.Char.{Char}
use mathlib.Core.List.Memᴰ
use pico_dome.Base.{ℕ, String, none, Bool, true, false, List, [], ◌∷◌, ◌≢◌, refl}
use pico_dome.Base.Text.{str_eq}
use pico_dome.Base.Dict.{values}
use pico_dome.L3.Run.{SandboxResult}
use pico_dome.L3.Engine.{call_of, sandbox_run, with_evidence}
use pico_dome.L3.Sample.{no_net, result_after, backend_after, linux, request, dumps, same_text}
use pico_dome.L4.Models.{DriftFlag}
use pico_dome.L4.Profiler.{Groups, profile_from_sandbox_result}
use pico_dome.L4.Engine.{clean, L4Engine, select_rules, analyze}
use pico_dome.L4.Timing.{detect_timing_anomalies, deterministic_run_not_clean}

abbrev no_digits : Char → Bool
no_digits c = false

abbrev show : ℕ → String
show n = "n"

abbrev describe : List DriftFlag → String
describe flags = ""

abbrev no_matches : String → String → List Groups
no_matches p output = []

abbrev to_int : String → ℕ
to_int t = 0

abbrev engine : L4Engine
engine = ("L4-TIME", detect_timing_anomalies no_digits str_eq show show describe) ∷ []

-- A run of 7 ms, without its duration.
abbrev sample : SandboxResult
sample =
    with_evidence dumps same_text same_text same_text "r" "t" true (backend_after "seccomp-bpf" 7)
      no_net (result_after 7 (call_of request no_net))

deterministic_run_not_clean_example :
    (analyze no_digits str_eq 1 show true
      (profile_from_sandbox_result no_matches to_int show same_text same_text sample)
      []
      []
      engine).overall_verdict
    ≢ clean
unfolding sandbox_run select_rules values
deterministic_run_not_clean_example =
    deterministic_run_not_clean no_digits str_eq show show describe no_matches to_int same_text
      same_text dumps same_text "r" "t" linux request none sample 1 show true [] [] engine refl refl
      refl (Memᴰ.head refl)
