-- ===== src/L3/Engine/Results.antt =====
-- l3/engine.py: what the result of a run is.
use pico_dome.Base.{
  String, Option, some, true, ◌≡◌, ◌⊎◌, refl, inl, inr, Option-cases, sym, ap, ◌∙◌,
}
use pico_dome.Base.Result.{Result-cases}
use pico_dome.L3.Models.{Policy}
use pico_dome.L3.Hash.{CanonicalPolicy}
use pico_dome.L3.Run.{SandboxResult, SandboxBackend}
use pico_dome.L3.Engine.{
  Host, EngineError, Outcome, done, raised, Request, call_of, with_evidence, choose_backend,
  policy_of, run_with, sandbox_run,
}

pub Outcome-cases :
    {A : Type 0} (o : Outcome A) → ((a : A) × (o ≡ done a)) ⊎ ((e : EngineError) × (o ≡ raised e))
Outcome-cases (done a) = inl (a, refl)
Outcome-cases (raised e) = inr (e, refl)

pub run_with_done :
    {Bytes : Type 0} (dumps : CanonicalPolicy → Bytes) (sha256 : Bytes → String)
    (lower strip : String → String) (i t : String) (r : Request) (p : Policy)
    (chosen : Outcome SandboxBackend) (result : SandboxResult)
    → run_with dumps sha256 lower strip i t r p chosen ≡ done result
    → (b : SandboxBackend) × (x : SandboxResult) × (chosen ≡ done b)
      × (b.run (call_of r p) ≡ some x)
      × (result ≡ with_evidence dumps sha256 lower strip i t r.deterministic b p x)
unfolding run_with
run_with_done dumps sha256 lower strip i t r p (raised e) result q = cc
run_with_done dumps sha256 lower strip i t r p (done b) result q =
    elim (Option-cases (b.run (call_of r p))) [
      | inl none_there ↦ cc (rw (none_there, run_with) at q)
      | inr (x, there) ↦ (b, x, refl, there, cc (rw (there, run_with) at q))
    ]

-- Two results that differ in their id and their times only.
abbrev pub Agrees : SandboxResult → SandboxResult → Type 0
Agrees x y =
    y ≡ record x { run_id = y.run_id; timestamp = y.timestamp; duration_ms = y.duration_ms }

module _ {Bytes : Type 0} (dumps : CanonicalPolicy → Bytes) (sha256 : Bytes → String)
    (lower strip : String → String) where
  sandbox_run_given :
      (i t : String) (h : Host) (r : Request) (kept : Option SandboxBackend) (p : Policy)
      (b : SandboxBackend) (x : SandboxResult)
      → r.policy ≡ some p
      → r.deterministic ≡ true
      → b.run (call_of r p) ≡ some x
      → (sandbox_run dumps sha256 lower strip i t h (record r { backend = some b }) kept).1
        ≡ done (with_evidence dumps sha256 lower strip i t true b p x)
  unfolding sandbox_run choose_backend run_with policy_of call_of
  sandbox_run_given i t h r kept p b x q d e = rw (q, sandbox_run) (rw (e, run_with) (rw d refl))

  -- A request with the same policy and backend gives the same result again, whatever the environment, the id and the
  -- time, if it is deterministic and what the backend gives differs in its id and its times only.
  pub sandbox_run_same :
      (i t i' t' : String) (h h' : Host) (r : Request) (kept kept' : Option SandboxBackend)
      (p : Policy) (b b' : SandboxBackend) (x x' : SandboxResult)
      → r.policy ≡ some p
      → r.deterministic ≡ true
      → b.name ≡ b'.name
      → b.run (call_of r p) ≡ some x
      → b'.run (call_of r p) ≡ some x'
      → Agrees x x'
      → (sandbox_run dumps sha256 lower strip i t h (record r { backend = some b }) kept).1
        ≡ (sandbox_run dumps sha256 lower strip i' t' h' (record r { backend = some b' }) kept').1
  unfolding with_evidence
  sandbox_run_same i t i' t' h h' r kept kept' p b b' x x' q d n e e' a =
      sandbox_run_given i t h r kept p b x q d e
      ∙ ap done (rw n (sym (ap (with_evidence dumps sha256 lower strip i t true b' p) a)))
      ∙ sym (sandbox_run_given i' t' h' r kept' p b' x' q d e')

  -- A run that succeeds gives the result of a backend with the evidence.
  sandbox_run_done :
      (i t : String) (h : Host) (r : Request) (kept : Option SandboxBackend)
      (result : SandboxResult)
      → (sandbox_run dumps sha256 lower strip i t h r kept).1 ≡ done result
      → (p : Policy) × (b : SandboxBackend) × (x : SandboxResult) × (b.run (call_of r p) ≡ some x)
        × (result ≡ with_evidence dumps sha256 lower strip i t r.deterministic b p x)
  unfolding sandbox_run
  sandbox_run_done i t h r kept result e = elim (Result-cases (policy_of r)) [
    | inr (f, q) ↦ cc (rw (q, sandbox_run) at e)
    | inl (p, q) ↦
        let e' : run_with dumps sha256 lower strip i t r p (choose_backend lower strip h r kept).1
            ≡ done result =
          rw (q, sandbox_run) at e in
        let (b, x, _, ran, s) =
          run_with_done dumps sha256 lower strip i t r p (choose_backend lower strip h r kept).1
            result e' in
        (p, b, x, ran, s)
  ]

  -- A deterministic run has no duration.
  pub deterministic_run-duration_ms :
      (i t : String) (h : Host) (r : Request) (kept : Option SandboxBackend)
      (result : SandboxResult)
      → r.deterministic ≡ true
      → (sandbox_run dumps sha256 lower strip i t h r kept).1 ≡ done result
      → result.duration_ms ≡ 0
  unfolding with_evidence
  deterministic_run-duration_ms i t h r kept result d e =
      let (p, b, x, ran, s) = sandbox_run_done i t h r kept result e in
      ap (λ v. v.duration_ms) s ∙ rw d refl
