-- ===== src/L3/Subprocess/Tests.antt =====
-- The theorem on the verdict of a run at sample processes. A match is found where the text is the pattern's
-- sample.
use pico_dome.Base.{ℕ, String, Option, none, some, false, List, [], ◌∷◌, ◌≡◌, refl, if◌then◌else◌}
use pico_dome.Base.Int.{ℤ, pos}
use pico_dome.Base.Text.{str_eq}
use pico_dome.Base.Dict.{Dict}
use pico_dome.L3.Run.{Verdict, allow, deny, kill, SandboxResult, Call}
use pico_dome.L3.Subprocess.{
  Match, Process, exited, timed_out, not_found, event, is_failure_code, compute_verdict, result_of,
  run,
}
use pico_dome.L3.Patterns.{url_pattern}
use pico_dome.L3.Subprocess.Quiet.{IsQuiet, run_allowed}
use pico_dome.L3.Sample.{no_net, request, same_text}
use pico_dome.L3.Engine.{call_of}

-- URLs are found in one text, and nothing in any other.
abbrev finditer : String → String → List Match
finditer p output =
    if str_eq p url_pattern
    then if str_eq output "GET https://evil.example\n"
      then record { whole = "https://evil.example"; group = none } ∷ []
      else []
    else []

abbrev seconds : ℕ → String
seconds n = "30.0"

abbrev popen : Process → List String → Option String → Dict String → ℕ → Process
popen q command cwd env timeout = q

abbrev call : Call
call = call_of request no_net

abbrev verdict_of : Process → Option Verdict
verdict_of q = elim (run finditer same_text seconds (popen q) [] 5 call) [
  | none ↦ none
  | some result ↦ some result.overall_verdict
]

run_run :
    (verdict_of (exited (pos 0) "done" "") ≡ some allow)
    × (verdict_of (exited (pos 0) "GET https://evil.example" "") ≡ some deny)
    × (verdict_of (timed_out "" "") ≡ some kill)
    × (verdict_of not_found ≡ some deny)
    × (verdict_of Process.failed ≡ none)
unfolding run call_of
run_run = (refl, refl, refl, refl, refl)

-- The first event decides, also before one that kills.
kill_after_deny :
    compute_verdict (event "A" deny "" "" ∷ event "L3-SUS-007" kill "" "" ∷ []) (pos 0) ≡ deny
unfolding compute_verdict
kill_after_deny = refl

abbrev quiet : Process
quiet = exited (pos 0) "done" ""

abbrev quiet_result : SandboxResult
quiet_result = result_of finditer same_text seconds (popen quiet) [] 5 call [] (pos 0) "done" ""

run_allowed_example :
    (quiet_result.overall_verdict ≡ allow
      → (code : ℤ) × (out : String) × (errors : String) × (quiet ≡ exited code out errors)
        × IsQuiet finditer out errors no_net)
    × ((code : ℤ) (out errors : String)
        → quiet ≡ exited code out errors
        → is_failure_code code ≡ false
        → IsQuiet finditer out errors no_net
        → quiet_result.overall_verdict ≡ allow)
unfolding run call_of
run_allowed_example =
    run_allowed finditer same_text seconds (popen quiet) [] 5 call quiet_result refl
