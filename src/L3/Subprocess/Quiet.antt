-- ===== src/L3/Subprocess/Quiet.antt =====
-- l3/backends/subprocess_backend.py: when a run is allowed.
use Prim.Native.String.{◌++◌ as str_append}
use pico_dome.Base.{
  ℕ, String, Option, some, false, List, [], ◌∷◌, All, All-append, ◌≡◌, ◌≢◌, ◌↔◌, ◌⊎◌, refl, inl,
  inr, arith, sym, ap, Option-cases,
}
use pico_dome.Base.Int.{ℤ}
use pico_dome.Base.Dict.{Dict}
use pico_dome.L3.Models.{RuleTarget, PolicyRule, Policy}
use pico_dome.L3.Run.{allow, deny, kill, SandboxEvent, SandboxResult, Call}
use pico_dome.L3.Subprocess.{
  Match, Process, exited, timed_out, not_found, not_permitted, failed, is_deny, run_env,
  effective_timeout, is_failure_code, compute_verdict, check_rule, check_rules, check_suspicious,
  analyze_output, events_of, exit_code_of, output_of, result_of, run,
}
use pico_dome.L3.Patterns.{write_indicators, spawn_patterns, suspicions}
use pico_dome.L3.Subprocess.Verdicts.{
  AllAllowed, compute_verdict-allow, NoAddress, check_network-AllAllowed,
  check_file_write-AllAllowed, check_process_spawn-AllAllowed, check_suspicious-AllAllowed,
}

refused :
    (code : ℤ) {e : SandboxEvent} {es events : List SandboxEvent}
    → some (e ∷ es) ≡ some events
    → e.verdict ≢ allow
    → compute_verdict events code ≢ allow
refused code {e} {es} {events} q k v =
    let s : e ∷ es ≡ events = cc q in k ((rw (← s) at ((compute_verdict-allow events code).0 v)).0)

kill_not_allowed : kill ≢ allow
kill_not_allowed k = cc

deny_not_allowed : deny ≢ allow
deny_not_allowed k = cc

module _ (finditer : String → String → List Match) where
  -- The output has nothing that the target of a rule is recognised by.
  abbrev pub ShowsNone : String → RuleTarget → PolicyRule → Type 0
  ShowsNone output RuleTarget.network_out rule = NoAddress finditer rule output
  ShowsNone output RuleTarget.network_in rule = NoAddress finditer rule output
  ShowsNone output RuleTarget.file_write rule =
      All (λ (p, op). finditer p output ≡ []) write_indicators
  ShowsNone output RuleTarget.process_spawn rule = All (λ p. finditer p output ≡ []) spawn_patterns
  ShowsNone output _ rule = Unit

  abbrev pub IsQuiet : String → String → Policy → Type 0
  IsQuiet stdout stderr policy =
      All
        (λ rule.
          (is_deny rule.action ≡ false)
          ⊎ ShowsNone (str_append stdout (str_append "\n" stderr)) rule.target rule)
        policy.rules
      × All (λ s. finditer s.pattern_text (str_append stdout stderr) ≡ []) suspicions

  check_target-AllAllowed :
      (output : String) (target : RuleTarget) (rule : PolicyRule)
      → rule.target ≡ target
      → AllAllowed (check_rule finditer output rule)
        ↔ ((is_deny rule.action ≡ false) ⊎ ShowsNone output target rule)
  unfolding check_rule
  check_target-AllAllowed output RuleTarget.network_out rule e =
      rw e (check_network-AllAllowed finditer rule output)
  check_target-AllAllowed output RuleTarget.network_in rule e =
      rw e (check_network-AllAllowed finditer rule output)
  check_target-AllAllowed output RuleTarget.file_write rule e =
      rw e (check_file_write-AllAllowed finditer rule output write_indicators)
  check_target-AllAllowed output RuleTarget.process_spawn rule e =
      rw e (check_process_spawn-AllAllowed finditer rule output spawn_patterns)
  check_target-AllAllowed output _ rule e = rw e (λ h. inr tt, λ h. tt)

  check_rules-AllAllowed :
      (output : String) (rules : List PolicyRule)
      → AllAllowed (check_rules finditer output rules)
        ↔ All (λ rule. (is_deny rule.action ≡ false) ⊎ ShowsNone output rule.target rule) rules
  unfolding check_rules
  check_rules-AllAllowed output [] = (λ h. tt, λ h. tt)
  check_rules-AllAllowed output (rule ∷ rules) =
      let (split, join) =
        All-append (λ (e : SandboxEvent). e.verdict ≡ allow) (check_rule finditer output rule)
          (check_rules finditer output rules) in
      let (a, b) = check_target-AllAllowed output rule.target rule refl in
      let (c, d) = check_rules-AllAllowed output rules in
      (λ h. let (x, y) = split h in (a x, c y), λ (x, y). join (b x, d y))

  analyze_output-AllAllowed :
      (stdout stderr : String) (policy : Policy)
      → AllAllowed (analyze_output finditer stdout stderr policy) ↔ IsQuiet stdout stderr policy
  unfolding analyze_output
  analyze_output-AllAllowed stdout stderr policy =
      let output = str_append stdout (str_append "\n" stderr) in
      let both = str_append stdout stderr in
      let (split, join) =
        All-append (λ (e : SandboxEvent). e.verdict ≡ allow)
          (check_rules finditer output policy.rules) (check_suspicious finditer suspicions both) in
      let (a, b) = check_rules-AllAllowed output policy.rules in
      let (c, d) = check_suspicious-AllAllowed finditer both suspicions (ground arith) in
      (λ h. let (x, y) = split h in (a x, c y), λ (x, y). join (b x, d y))

  module _ (strip : String → String) (seconds : ℕ → String)
      (popen : List String → Option String → Dict String → ℕ → Process) (environ : Dict String)
      (elapsed : ℕ) (c : Call) where
    abbrev pub process : Process
    process = popen c.command c.cwd (run_env environ c.env) (effective_timeout c.timeout)

    events_allowed :
        (q : Process) (events : List SandboxEvent)
        → events_of finditer strip seconds popen environ elapsed c q ≡ some events
        → (compute_verdict events (exit_code_of finditer strip seconds popen environ elapsed q)
              ≡ allow
            → (code : ℤ) × (out : String) × (errors : String) × (q ≡ exited code out errors)
              × IsQuiet (strip out) (strip errors) c.policy)
          × ((code : ℤ) (out errors : String)
              → q ≡ exited code out errors
              → is_failure_code code ≡ false
              → IsQuiet (strip out) (strip errors) c.policy
              → compute_verdict events (exit_code_of finditer strip seconds popen environ elapsed q)
                ≡ allow)
    unfolding events_of
    events_allowed (exited code out errors) events e =
        let es = analyze_output finditer (strip out) (strip errors) c.policy in
        let s : es ≡ events = cc e in
        let (a, b) = analyze_output-AllAllowed (strip out) (strip errors) c.policy in
        let (l, m) = compute_verdict-allow es code in
        rw (← s) (
          λ v. (code, out, errors, refl, a (l v)),
          λ code' out' errors' same ok_code quiet.
              let k : is_failure_code code ≡ false = ground (arith, same, ok_code) in
              let o : out' ≡ out = cc in
              let o' : errors' ≡ errors = cc in m k (b (rw (o, o') at quiet)),
        )
    events_allowed (timed_out out errors) events e =
        (λ v. absurd (refused _ e kill_not_allowed v), λ code' out' errors' same. cc)
    events_allowed not_found events e =
        (λ v. absurd (refused _ e deny_not_allowed v), λ code' out' errors' same. cc)
    events_allowed (not_permitted text) events e =
        (λ v. absurd (refused _ e deny_not_allowed v), λ code' out' errors' same. cc)
    events_allowed failed events e = cc

    -- A run is allowed only if its process ended in time and its output, stripped, is quiet: no rule that denies finds what
    -- its target is recognised by, and no suspicious pattern is found. It is allowed if so and the exit code is not -1.
    pub run_allowed :
        (result : SandboxResult)
        → run finditer strip seconds popen environ elapsed c ≡ some result
        → (result.overall_verdict ≡ allow
            → (code : ℤ) × (out : String) × (errors : String) × (process ≡ exited code out errors)
              × IsQuiet (strip out) (strip errors) c.policy)
          × ((code : ℤ) (out errors : String)
              → process ≡ exited code out errors
              → is_failure_code code ≡ false
              → IsQuiet (strip out) (strip errors) c.policy
              → result.overall_verdict ≡ allow)
    unfolding run result_of
    run_allowed result e =
        elim (Option-cases (events_of finditer strip seconds popen environ elapsed c process)) [
          | inl q ↦ cc (rw (q, run) at e)
          | inr (events, q) ↦
              let s : result.overall_verdict
                  ≡ compute_verdict events
                      (exit_code_of finditer strip seconds popen environ elapsed process) =
                let r : result_of finditer strip seconds popen environ elapsed c events
                      (exit_code_of finditer strip seconds popen environ elapsed process)
                      (output_of finditer strip seconds popen environ elapsed process).0
                      (output_of finditer strip seconds popen environ elapsed process).1
                    ≡ result =
                  cc (rw (q, run) at e) in
                sym (ap (λ x. x.overall_verdict) r) in
              rw s (events_allowed process events q)
        ]
