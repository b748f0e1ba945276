-- ===== src/L3/Engine/Runs.antt =====
-- l3/engine.py: which backends make the runs of a process.
use pico_dome.Base.{
  String, Option, none, some, Bool, true, false, List, [], ◌∷◌, All, ◌≡◌, ◌≢◌, refl, inl, inr,
  Option-cases, ap, ◌∙◌,
}
use pico_dome.Base.Dict.{lookup}
use pico_dome.Base.Result.{get_or, ok, Result-cases}
use pico_dome.L3.Models.{Policy}
use pico_dome.L3.Hash.{CanonicalPolicy, policy_hash}
use pico_dome.L3.Run.{SandboxResult, SandboxBackend}
use pico_dome.L3.Engine.{
  Host, policy_failed, Outcome, done, raised, degraded_allowed, detect_backend, get_backend,
  Request, call_of, with_evidence, choose_backend, policy_of, run_with, sandbox_run, sandbox_runs,
}
use pico_dome.L3.Engine.Choice.{IsEnforced, detect_backend_lem}
use pico_dome.L3.Engine.Results.{Outcome-cases, run_with_done}

module _ (lower strip : String → String) where
  -- The environment does not let the engine degrade.
  abbrev pub IsStrict : Host → Type 0
  IsStrict h =
      (degraded_allowed lower strip h ≡ false)
      × ((name : String)
          → lookup "PICODOME_SANDBOX_BACKEND" h.environ ≡ some name
          → strip (lower name) ≢ "subprocess")

  -- A request does so neither.
  abbrev pub IsPlain : Request → Type 0
  IsPlain r = (r.backend ≡ none) × (r.allow_degraded ≢ some true)

  module _ (Kernel : SandboxBackend → Type 0) where
    -- All kernel backends that a host offers are of the kind.
    abbrev pub Offers : Host → Type 0
    Offers h = (b : SandboxBackend) → IsEnforced h b → Kernel b

    -- The backend that is kept is of the kind.
    abbrev pub Keeps : Option SandboxBackend → Type 0
    Keeps kept = (b : SandboxBackend) → kept ≡ some b → Kernel b

    not_degraded :
        (h : Host) (allow : Option Bool)
        → IsStrict h
        → allow ≢ some true
        → get_or allow (degraded_allowed lower strip h) ≡ false
    not_degraded h none strict a = strict.0
    not_degraded h (some true) strict a = absurd (a refl)
    not_degraded h (some false) strict a = refl

    detect_backend-Kernel :
        (h : Host) (b : SandboxBackend)
        → IsStrict h
        → Offers h
        → (requested : Option String) (allow : Option Bool)
        → ((name : String) → requested ≡ some name → strip (lower name) ≢ "subprocess")
        → allow ≢ some true
        → detect_backend lower strip h requested allow ≡ done b
        → Kernel b
    detect_backend-Kernel h b strict offers none allow s a q =
        offers b ((detect_backend_lem lower strip h allow).0 b (not_degraded h allow strict a) q)
    detect_backend-Kernel h b strict offers (some name) allow s a q =
        elim ((detect_backend_lem lower strip h allow).1 name b (not_degraded h allow strict a) q) [
          | inl (_, there, e) ↦ offers b (inl (there, e))
          | inr (inl (_, there, e)) ↦ offers b (inr (there, e))
          | inr (inr (e, _)) ↦ absurd (s name refl e)
        ]

    get_backend-Keeps :
        (h : Host) (kept : Option SandboxBackend)
        → IsStrict h
        → Offers h
        → Keeps kept
        → Keeps (get_backend lower strip h kept).0
          × ((b : SandboxBackend) → (get_backend lower strip h kept).1 ≡ done b → Kernel b)
    unfolding get_backend
    get_backend-Keeps h (some b) strict offers keeps = (keeps, λ c q. keeps c (cc))
    get_backend-Keeps h none strict offers keeps =
        elim (Outcome-cases
          (detect_backend lower strip h (lookup "PICODOME_SANDBOX_BACKEND" h.environ) none)) [
            | inl (b, q) ↦
                let k =
                  detect_backend-Kernel h b strict offers
                    (lookup "PICODOME_SANDBOX_BACKEND" h.environ) none strict.1 (λ e. cc) q in
                rw (q, get_backend)
                  (
                    λ c e. let e' : b ≡ c = cc in rw (← e') k,
                    λ c e. let e' : b ≡ c = cc in rw (← e') k,
                  )
            | inr (e, q) ↦ rw (q, get_backend) (λ c e. cc, λ c e. cc)
          ]

    choose_backend-Keeps :
        (h : Host) (r : Request) (kept : Option SandboxBackend)
        → IsStrict h
        → Offers h
        → IsPlain r
        → Keeps kept
        → Keeps (choose_backend lower strip h r kept).0
          × ((b : SandboxBackend) → (choose_backend lower strip h r kept).1 ≡ done b → Kernel b)
    unfolding choose_backend
    choose_backend-Keeps h r kept strict offers (no_backend, a) keeps =
        elim (Option-cases r.allow_degraded) [
          | inl q ↦ rw (no_backend, q) (get_backend-Keeps h kept strict offers keeps)
          | inr (allow, q) ↦
              rw (no_backend, q)
                (
                  keeps,
                  λ b.
                      detect_backend-Kernel h b strict offers none (some allow) (λ name e. cc)
                        (λ e. a (q ∙ e)),
                )
        ]

    -- The result of a run by a backend of the kind: the backend's own, with the hash of the policy.
    module _ {Bytes : Type 0} (dumps : CanonicalPolicy → Bytes) (sha256 : Bytes → String) where
      abbrev pub IsRun : Request × Outcome SandboxResult → Type 0
      IsRun (r, outcome) =
          (result : SandboxResult)
          → outcome ≡ done result
          → (b : SandboxBackend) × (p : Policy) × (x : SandboxResult) × Kernel b
            × (policy_of r ≡ ok p)
            × (b.run (call_of r p) ≡ some x)
            × (result.backend ≡ b.name)
            × (result.policy_hash ≡ policy_hash dumps sha256 p)
            × (result.overall_verdict ≡ x.overall_verdict)
            × (result.events ≡ x.events)
            × (result.exit_code ≡ x.exit_code)

      run_with-IsRun :
          (new_run_id new_timestamp : String) (r : Request) (p : Policy)
          (chosen : Outcome SandboxBackend)
          → policy_of r ≡ ok p
          → ((b : SandboxBackend) → chosen ≡ done b → Kernel b)
          → IsRun (r, run_with dumps sha256 lower strip new_run_id new_timestamp r p chosen)
      unfolding with_evidence
      run_with-IsRun new_run_id new_timestamp r p chosen q k result e =
          let (b, x, c, ran, s) =
            run_with_done dumps sha256 lower strip new_run_id new_timestamp r p chosen result e in
          (
            b,
            p,
            x,
            k b c,
            q,
            ran,
            ap (λ v. v.backend) s,
            ap (λ v. v.policy_hash) s,
            ap (λ v. v.overall_verdict) s,
            ap (λ v. v.events) s,
            ap (λ v. v.exit_code) s,
          )

      module _ (new_run_id new_timestamp : String) where
        sandbox_run-IsRun :
            (h : Host) (r : Request) (kept : Option SandboxBackend)
            → IsStrict h
            → Offers h
            → IsPlain r
            → Keeps kept
            → Keeps (sandbox_run dumps sha256 lower strip new_run_id new_timestamp h r kept).0
              × IsRun
                  (r, (sandbox_run dumps sha256 lower strip new_run_id new_timestamp h r kept).1)
        unfolding sandbox_run
        sandbox_run-IsRun h r kept strict offers plain keeps =
            let (keeps', chosen) = choose_backend-Keeps h r kept strict offers plain keeps in
            elim (Result-cases (policy_of r)) [
              | inr (e, q) ↦
                  let s : sandbox_run dumps sha256 lower strip new_run_id new_timestamp h r kept
                      ≡ (kept, raised (policy_failed e)) =
                    rw (q, sandbox_run) refl in
                  rw s (keeps, λ result e'. cc)
              | inl (p, q) ↦
                  let s : sandbox_run dumps sha256 lower strip new_run_id new_timestamp h r kept ≡ (
                    (choose_backend lower strip h r kept).0,
                    run_with dumps sha256 lower strip new_run_id new_timestamp r p
                        (choose_backend lower strip h r kept).1,
                  ) =
                    rw (q, sandbox_run) refl in
                  rw s (
                    keeps',
                    run_with-IsRun new_run_id new_timestamp r p
                        (choose_backend lower strip h r kept).1 q chosen,
                  )
            ]

        -- Where no environment lets the engine degrade and no request names a backend or asks to degrade, each run of
        -- a process that succeeds is made by a kernel backend that a host offered: its result is the backend's, with
        -- the hash of the policy.
        pub sandbox_runs-IsRun :
            (calls : List (Host × Request)) (kept : Option SandboxBackend)
            → Keeps kept
            → All (λ (h, r). IsStrict h × Offers h × IsPlain r) calls
            → All IsRun (sandbox_runs dumps sha256 lower strip new_run_id new_timestamp calls kept)
        unfolding sandbox_runs
        sandbox_runs-IsRun [] kept keeps h = tt
        sandbox_runs-IsRun ((h, r) ∷ calls) kept keeps ((strict, offers, plain), hs) =
            let (keeps', ran) = sandbox_run-IsRun h r kept strict offers plain keeps in
            (
              ran,
              sandbox_runs-IsRun calls
                  (sandbox_run dumps sha256 lower strip new_run_id new_timestamp h r kept).0 keeps'
                  hs,
            )
