-- ===== src/L3/Subprocess/Verdicts.antt =====
-- l3/backends/subprocess_backend.py: what the verdict says of the events, and which events are allowed.
use pico_dome.Base.{
  String, false, not, List, [], ◌∷◌, All, All-append, ◌≡◌, ◌≢◌, ◌↔◌, ◌⊎◌, arith, List-cases, filter,
}
use pico_dome.Base.Int.{ℤ}
use pico_dome.Base.Text.{contains}
use pico_dome.L3.Models.{PolicyRule}
use pico_dome.L3.Run.{allow, SandboxEvent}
use pico_dome.L3.Subprocess.{
  Match, is_deny, rule_verdict, first_verdict, is_failure_code, compute_verdict, search_for,
  address_events, check_network, write_events, check_file_write, spawn_events, check_process_spawn,
  check_suspicious, take_text,
}
use pico_dome.L3.Patterns.{ip_pattern, url_pattern, local_addresses, Suspicion}

abbrev pub AllAllowed : List SandboxEvent → Type 0
AllAllowed = All (λ e. e.verdict ≡ allow)

first_verdict-allow : (es : List SandboxEvent) → (first_verdict es ≡ allow) ↔ AllAllowed es
unfolding first_verdict
first_verdict-allow [] = ground arith
first_verdict-allow (e ∷ es) = ground (arith, first_verdict-allow es)

pub compute_verdict-allow :
    (es : List SandboxEvent) (code : ℤ)
    → (compute_verdict es code ≡ allow → AllAllowed es)
      × (is_failure_code code ≡ false → AllAllowed es → compute_verdict es code ≡ allow)
unfolding compute_verdict
compute_verdict-allow es code = ground (arith, first_verdict-allow es)

-- Nothing is found, or the rule does not deny.
abbrev pub Spares : {A : Type 0} → PolicyRule → List A → Type 0
Spares rule xs = (is_deny rule.action ≡ false) ⊎ (xs ≡ [])

module _ (finditer : String → String → List Match) (rule : PolicyRule) where
  address_events-AllAllowed :
      (prefix : String) (shorten : String → String) (xs : List Match)
      → AllAllowed (address_events finditer prefix rule shorten xs) ↔ Spares rule xs
  unfolding address_events rule_verdict
  address_events-AllAllowed prefix shorten [] = ground arith
  address_events-AllAllowed prefix shorten (x ∷ xs) =
      ground (arith, address_events-AllAllowed prefix shorten xs)

  write_events-AllAllowed :
      (op : String) (xs : List Match)
      → AllAllowed (write_events finditer op rule xs) ↔ Spares rule xs
  unfolding write_events rule_verdict
  write_events-AllAllowed op [] = ground arith
  write_events-AllAllowed op (x ∷ xs) = ground (arith, write_events-AllAllowed op xs)

  spawn_events-AllAllowed :
      (xs : List Match) → AllAllowed (spawn_events finditer rule xs) ↔ Spares rule xs
  unfolding spawn_events rule_verdict
  spawn_events-AllAllowed [] = ground arith
  spawn_events-AllAllowed (x ∷ xs) = ground (arith, spawn_events-AllAllowed xs)

  -- The output has none of what the rule is about.
  module _ (output : String) where
    abbrev pub NoAddress : Type 0
    NoAddress =
        (filter (λ x. not (contains local_addresses x.whole)) (finditer ip_pattern output) ≡ [])
        × (finditer url_pattern output ≡ [])

    pub check_network-AllAllowed :
        AllAllowed (check_network finditer output rule)
        ↔ ((is_deny rule.action ≡ false) ⊎ NoAddress)
    unfolding check_network
    check_network-AllAllowed =
        let ips =
          filter (λ (x : Match). not (contains local_addresses x.whole))
            (finditer ip_pattern output) in
        let urls = finditer url_pattern output in
        ground (
          arith,
          All-append (λ (e : SandboxEvent). e.verdict ≡ allow)
              (address_events finditer "IP address found: " rule (λ t. t) ips)
              (address_events finditer "URL found: " rule (take_text 100) urls),
          address_events-AllAllowed "IP address found: " (λ t. t) ips,
          address_events-AllAllowed "URL found: " (take_text 100) urls,
        )

    pub check_file_write-AllAllowed :
        (patterns : List (String × String))
        → AllAllowed (check_file_write finditer patterns output rule)
          ↔ ((is_deny rule.action ≡ false) ⊎ All (λ (p, op). finditer p output ≡ []) patterns)
    unfolding check_file_write
    check_file_write-AllAllowed [] = ground arith
    check_file_write-AllAllowed ((p, op) ∷ rest) = ground (
      arith,
      All-append (λ (e : SandboxEvent). e.verdict ≡ allow)
          (write_events finditer op rule (finditer p output))
          (check_file_write finditer rest output rule),
      write_events-AllAllowed op (finditer p output),
      check_file_write-AllAllowed rest,
    )

    pub check_process_spawn-AllAllowed :
        (patterns : List String)
        → AllAllowed (check_process_spawn finditer patterns output rule)
          ↔ ((is_deny rule.action ≡ false) ⊎ All (λ p. finditer p output ≡ []) patterns)
    unfolding check_process_spawn
    check_process_spawn-AllAllowed [] = ground arith
    check_process_spawn-AllAllowed (p ∷ rest) = ground (
      arith,
      All-append (λ (e : SandboxEvent). e.verdict ≡ allow)
          (spawn_events finditer rule (finditer p output))
          (check_process_spawn finditer rest output rule),
      spawn_events-AllAllowed (finditer p output),
      check_process_spawn-AllAllowed rest,
    )

module _ (finditer : String → String → List Match) (output : String) where
  pub check_suspicious-AllAllowed :
      (patterns : List Suspicion)
      → All (λ s. s.verdict ≢ allow) patterns
      → AllAllowed (check_suspicious finditer patterns output)
        ↔ All (λ s. finditer s.pattern_text output ≡ []) patterns
  unfolding check_suspicious search_for
  check_suspicious-AllAllowed [] h = ground arith
  check_suspicious-AllAllowed (s ∷ rest) (h, hs) =
      ground
        (arith, List-cases (finditer s.pattern_text output), check_suspicious-AllAllowed rest hs)
