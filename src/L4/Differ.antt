-- ===== src/L4/Differ.antt =====
-- l4/differ.py: comparing a profile with a baseline. Which characters are digits, and whether a path
-- matches a pattern (`fnmatch`), are arguments.
use Prim.Native.Char.{Char, code}
use pico_dome.Base.{
  ℕ, ◌+◌, String, Option, none, some, Bool, true, false, not, ◌&&◌, ◌||◌, List, [], ◌∷◌, ◌++◌,
  length, any, is_empty, ◌==◌, if◌then◌else◌,
}
use pico_dome.Base.Int.{ℤ, is_nonneg, is_positive, exceeds, is_below}
use pico_dome.Base.Text.{contains}
use pico_dome.L4.Models.{
  NetworkCall, FileOperation, BehavioralProfile, Baseline, DriftFlag, network, dns, fs, spawn,
  timing, unexpected_domain, unexpected_path, DriftResult,
}

-- `address.replace(".", "").replace(":", "")`
unfoldable pub without_separators : String → String
without_separators String.[] = String.[]
without_separators (String.◌∷◌ c s) =
    let rest = without_separators s in
    if code c == b'.' || code c == b':' then rest else String.◌∷◌ c rest

-- The local variables of `compare_profile_to_baseline`.
pub record Checks : Type 0 where
  pub drift_flags : List DriftFlag
  pub drift_count : ℕ
  pub network_drift : Bool
  pub dns_drift : Bool
  pub fs_drift : Bool
  pub spawn_drift : Bool
  pub timing_drift : Bool

abbrev pub no_checks : Checks
no_checks = record {
  drift_flags = [];
  drift_count = 0;
  network_drift = false;
  dns_drift = false;
  fs_drift = false;
  spawn_drift = false;
  timing_drift = false;
}

-- A limit below zero is none.
unfoldable pub over : ℕ → ℤ → Bool
unfolding is_nonneg exceeds
over n limit = is_nonneg limit && exceeds n limit

abbrev pub flag : DriftFlag → Checks → Checks
flag f c = record c { drift_count = c.drift_count + 1; drift_flags = c.drift_flags ++ (f ∷ []) }

unfoldable pub check_network : BehavioralProfile → Baseline → Checks → Checks
unfolding over
check_network p b c =
    if over (length p.network_calls) b.expected_network_calls
    then record (flag (network (length p.network_calls) b.expected_network_calls) c) {
      network_drift = true;
    }
    else c

unfoldable pub check_dns : BehavioralProfile → Baseline → Checks → Checks
unfolding over
check_dns p b c =
    if over (length p.dns_queries) b.expected_dns_queries
    then record (flag (dns (length p.dns_queries) b.expected_dns_queries) c) { dns_drift = true }
    else c

unfoldable pub check_fs : BehavioralProfile → Baseline → Checks → Checks
unfolding over
check_fs p b c =
    if over (length p.fs_ops) b.expected_fs_ops
    then record (flag (fs (length p.fs_ops) b.expected_fs_ops) c) { fs_drift = true }
    else c

unfoldable pub check_spawns : BehavioralProfile → Baseline → Checks → Checks
unfolding over
check_spawns p b c =
    if over (length p.spawns) b.expected_spawns
    then record (flag (spawn (length p.spawns) b.expected_spawns) c) { spawn_drift = true }
    else c

-- Two bounds that are both at most zero are none.
unfoldable pub out_of_range : ℕ → ℤ → ℤ → Bool
unfolding is_positive is_below exceeds
out_of_range n low high =
    (is_positive low || is_positive high) && (is_below n low || exceeds n high)

unfoldable pub check_timing : BehavioralProfile → Baseline → Checks → Checks
unfolding out_of_range
check_timing p b c =
    let (low, high) = b.expected_runtime_ms_range in
    if out_of_range p.total_runtime_ms low high
    then record (flag (timing p.total_runtime_ms low high) c) { timing_drift = true }
    else c

-- The first member with the property, where a loop breaks.
unfoldable pub first_of {ℓ} : {A : Type ℓ} → (A → Bool) → List A → Option A
first_of p [] = none
first_of p (a ∷ rest) = if p a then some a else first_of p rest

module _ (is_digit : Char → Bool) (fnmatch : String → String → Bool) where
  -- All characters are digits, in a text that may be empty.
  unfoldable all_digits : String → Bool
  all_digits String.[] = true
  all_digits (String.◌∷◌ c s) = is_digit c && all_digits s

  -- `s.isdigit()`
  unfoldable isdigit : String → Bool
  unfolding all_digits
  isdigit String.[] = false
  isdigit (String.◌∷◌ c s) = all_digits (String.◌∷◌ c s)

  -- The domains of the baseline restrict the calls.
  abbrev pub limits_domains : Baseline → Bool
  limits_domains b = not (is_empty b.allowed_domains) && not (contains b.allowed_domains "*")

  -- The address is not an IP address and not an allowed domain.
  unfoldable pub is_unexpected : Baseline → NetworkCall → Bool
  unfolding isdigit without_separators contains
  is_unexpected b call =
      not (isdigit (without_separators call.address))
      && not (contains b.allowed_domains call.address)

  unfoldable pub check_domains : BehavioralProfile → Baseline → Checks → Checks
  unfolding first_of is_unexpected contains
  check_domains p b c =
      if limits_domains b
      then elim (first_of (is_unexpected b) p.network_calls) [
        | none ↦ c
        | some call ↦
            let c' : Checks =
              if c.network_drift
              then c
              else record c { network_drift = true; drift_count = c.drift_count + 1 } in
            record c' { drift_flags = c'.drift_flags ++ (unexpected_domain call.address ∷ []) }
      ]
      else c

  abbrev pub limits_paths : Baseline → Bool
  limits_paths b = not (is_empty b.allowed_paths) && not (contains b.allowed_paths "**")

  -- `_path_matches` fails for every pattern.
  unfoldable pub is_outside : Baseline → FileOperation → Bool
  unfolding any
  is_outside b op = not (any (fnmatch op.path) b.allowed_paths)

  unfoldable pub check_paths : BehavioralProfile → Baseline → Checks → Checks
  unfolding first_of is_outside contains
  check_paths p b c =
      if limits_paths b
      then elim (first_of (is_outside b) p.fs_ops) [
        | none ↦ c
        | some op ↦
            let c' : Checks =
              if c.fs_drift
              then c
              else record c { fs_drift = true; drift_count = c.drift_count + 1 } in
            record c' { drift_flags = c'.drift_flags ++ (unexpected_path op.path ∷ []) }
      ]
      else c

  unfoldable pub run_checks : BehavioralProfile → Baseline → Checks
  unfolding check_network check_dns check_fs check_spawns check_timing check_domains check_paths
  run_checks p b = check_paths p b (
      check_domains p b (
        check_timing p b
          (check_spawns p b (check_fs p b (check_dns p b (check_network p b no_checks))))))

  unfoldable pub compare_profile_to_baseline : BehavioralProfile → Baseline → DriftResult
  unfolding run_checks
  compare_profile_to_baseline p b =
      let c = run_checks p b in
      record {
        baseline_name = b.name;
        score = c.drift_count;
        network_drift = c.network_drift;
        dns_drift = c.dns_drift;
        fs_drift = c.fs_drift;
        spawn_drift = c.spawn_drift;
        timing_drift = c.timing_drift;
        details = c.drift_flags;
      }
