-- ===== src/L3/Engine/Tests.antt =====
-- The theorems on the sandbox engine at sample hosts.
use pico_dome.Base.{String, Option, none, some, false, [], ◌∷◌, All, ◌≡◌, refl, inl, inr}
use pico_dome.Base.Dict.{lookup}
use pico_dome.L3.Run.{SandboxBackend}
use pico_dome.L3.Engine.{
  Check, Host, seatbelt_available, degraded_allowed, EngineError, backend_unavailable, done, raised,
  detect_backend, call_of, sandbox_run, sandbox_runs,
}
use pico_dome.L3.Engine.Choice.{
  IsEnforced, IsAsFor, IsMissing, name_asked, allowed, detect_backend_lem,
}
use pico_dome.L3.Engine.Runs.{IsRun, sandbox_runs-IsRun}
use pico_dome.L3.Engine.Results.{sandbox_run_same}
use pico_dome.L3.Sample.{no_net, result_after, backend_after, linux, request, dumps, same_text}

-- A host without a kernel backend, which may degrade or not.
abbrev bare : Host
bare = record linux { seccomp_check = Check.check_failed }

abbrev lenient : Host
lenient = record bare { environ = ("PICODOME_ALLOW_DEGRADED", "yes") ∷ [] }

detect_backend_run :
    (detect_backend same_text same_text linux none none ≡ done linux.seccomp_backend)
    × (detect_backend same_text same_text bare none none
        ≡ raised (backend_unavailable "auto" ("subprocess" ∷ [])))
    × (detect_backend same_text same_text lenient (some "seccomp-bpf") none
        ≡ done bare.subprocess_backend)
unfolding detect_backend
detect_backend_run = (refl, refl, refl)

detect_backend_lem_example :
    ((b : SandboxBackend)
      → allowed same_text same_text bare none ≡ false
      → detect_backend same_text same_text bare none none ≡ done b
      → IsEnforced bare b)
    × ((name : String) (b : SandboxBackend)
        → allowed same_text same_text bare none ≡ false
        → detect_backend same_text same_text bare (some name) none ≡ done b
        → IsAsFor bare name b)
    × ((requested : Option String) (e : EngineError)
        → detect_backend same_text same_text bare requested none ≡ raised e
        → IsMissing bare
            (allowed same_text same_text bare none)
            (name_asked same_text same_text bare none requested))
detect_backend_lem_example = detect_backend_lem same_text same_text bare none

abbrev IsSeccomp : SandboxBackend → Type 0
IsSeccomp b = b.name ≡ "seccomp-bpf"

linux_offers : (b : SandboxBackend) → IsEnforced linux b → IsSeccomp b
unfolding seatbelt_available
linux_offers b (inl (_, e)) = rw e refl
linux_offers b (inr (a, _)) = cc a

sandbox_runs-IsRun_example : All (IsRun same_text same_text IsSeccomp dumps same_text) (
    sandbox_runs dumps same_text same_text same_text "r1" "now"
      ((linux, request) ∷ (linux, request) ∷ [])
      none)
unfolding degraded_allowed lookup
sandbox_runs-IsRun_example =
    sandbox_runs-IsRun same_text same_text IsSeccomp dumps same_text "r1" "now"
      ((linux, request) ∷ (linux, request) ∷ []) none (λ b e. cc)
      (
        ((refl, λ name e. cc), linux_offers, (refl, λ e. cc)),
        (((refl, λ name e. cc), linux_offers, (refl, λ e. cc)), tt),
      )

sandbox_run_same_example :
    (sandbox_run dumps same_text same_text same_text "r1" "now" linux
      (record request { backend = some (backend_after "b" 7) })
      none).1
    ≡ (sandbox_run dumps same_text same_text same_text "r2" "then" bare
        (record request { backend = some (backend_after "b" 9) })
        none).1
unfolding call_of
sandbox_run_same_example =
    sandbox_run_same dumps same_text same_text same_text "r1" "now" "r2" "then" linux bare request
      none none no_net (backend_after "b" 7) (backend_after "b" 9)
      (result_after 7 (call_of request no_net)) (result_after 9 (call_of request no_net)) refl refl
      refl refl refl refl
