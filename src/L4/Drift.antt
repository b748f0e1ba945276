-- ===== src/L4/Drift.antt =====
-- l4/differ.py: what the score and the flags of a comparison say.
use Prim.Native.Char.{Char}
use pico_dome.Base.{
  ℕ, ◌+◌, String, none, some, Bool, true, false, ◌&&◌, ◌||◌, List, [], ◌∷◌, ◌++◌, length, any,
  is_empty, ◌==◌, ◌≡◌, ◌∙◌, ◌⊎◌, refl, inl, inr, arith, Bool-cases,
}
use pico_dome.L4.Models.{BehavioralProfile, Baseline, DriftFlag}
use pico_dome.L4.Differ.{
  Checks, no_checks, over, out_of_range, first_of, limits_domains, is_unexpected, limits_paths,
  is_outside, check_network, check_dns, check_fs, check_spawns, check_timing, check_domains,
  check_paths, run_checks, compare_profile_to_baseline,
}

abbrev pub bit : Bool → ℕ
bit true = 1
bit false = 0

-- How many of the flags are set.
abbrev tally : Checks → ℕ
tally c =
    bit c.network_drift + bit c.dns_drift + bit c.fs_drift + bit c.spawn_drift + bit c.timing_drift

-- The count is the number of the flags that are set, and there are details when it is not zero.
abbrev IsCounted : Checks → Type 0
IsCounted c = (c.drift_count ≡ tally c) × (is_empty c.drift_flags ≡ (c.drift_count == 0))

is_empty-append_cons {ℓ} : {A : Type ℓ} (xs : List A) (x : A) → is_empty (xs ++ (x ∷ [])) ≡ false
is_empty-append_cons [] x = refl
is_empty-append_cons (y ∷ xs) x = refl

is_empty_append : (c : Checks) (f : DriftFlag) → is_empty (c.drift_flags ++ (f ∷ [])) ≡ false
is_empty_append c f = is_empty-append_cons c.drift_flags f

any_of_first_of {ℓ} :
    {A : Type ℓ} (t : A → Bool) (xs : List A)
    → ((a : A) × (first_of t xs ≡ some a) × (any t xs ≡ true))
      ⊎ ((first_of t xs ≡ none) × (any t xs ≡ false))
unfolding first_of any
any_of_first_of t [] = inr (refl, refl)
any_of_first_of t (x ∷ xs) = elim (Bool-cases (t x)) [
  | inl q ↦ rw q (inl (x, refl, refl))
  | inr q ↦ rw q (any_of_first_of t xs)
]

module _ (p : BehavioralProfile) (b : Baseline) where
  unfoldable counts : Checks
  unfolding check_network check_dns check_fs check_spawns check_timing
  counts =
      check_timing p b
        (check_spawns p b (check_fs p b (check_dns p b (check_network p b no_checks))))

  counts_fields :
      (counts.network_drift ≡ over (length p.network_calls) b.expected_network_calls)
      × (counts.dns_drift ≡ over (length p.dns_queries) b.expected_dns_queries)
      × (counts.fs_drift ≡ over (length p.fs_ops) b.expected_fs_ops)
      × (counts.spawn_drift ≡ over (length p.spawns) b.expected_spawns)
      × (counts.timing_drift
          ≡ out_of_range p.total_runtime_ms b.expected_runtime_ms_range.0
              b.expected_runtime_ms_range.1)
  unfolding counts
  counts_fields = ground arith

  counts-IsCounted : IsCounted counts
  unfolding counts
  counts-IsCounted = ground arith

  module _ (is_digit : Char → Bool) (fnmatch : String → String → Bool) where
    -- Some call goes to an unexpected domain, where the domains are limited.
    abbrev pub has_unexpected_domain : Bool
    has_unexpected_domain =
        limits_domains is_digit fnmatch b && any (is_unexpected is_digit fnmatch b) p.network_calls

    -- Some file operation is outside the allowed paths, where they are limited.
    abbrev pub has_unexpected_path : Bool
    has_unexpected_path =
        limits_paths is_digit fnmatch b && any (is_outside is_digit fnmatch b) p.fs_ops

    check_domains_lem :
        (c : Checks)
        → IsCounted c
        → let c' = check_domains is_digit fnmatch p b c in
          IsCounted c'
          × (c'.network_drift ≡ (c.network_drift || has_unexpected_domain))
          × (c'.dns_drift ≡ c.dns_drift)
          × (c'.fs_drift ≡ c.fs_drift)
          × (c'.spawn_drift ≡ c.spawn_drift)
          × (c'.timing_drift ≡ c.timing_drift)
    unfolding check_domains
    check_domains_lem c h =
        elim (any_of_first_of (is_unexpected is_digit fnmatch b) p.network_calls) [
          | inl (call, e, q) ↦
              rw (e, q)
                (ground (arith, is_empty_append c (DriftFlag.unexpected_domain call.address)))
          | inr (e, q) ↦ rw (e, q) (ground arith)
        ]

    check_paths_lem :
        (c : Checks)
        → IsCounted c
        → let c' = check_paths is_digit fnmatch p b c in
          IsCounted c'
          × (c'.network_drift ≡ c.network_drift)
          × (c'.dns_drift ≡ c.dns_drift)
          × (c'.fs_drift ≡ (c.fs_drift || has_unexpected_path))
          × (c'.spawn_drift ≡ c.spawn_drift)
          × (c'.timing_drift ≡ c.timing_drift)
    unfolding check_paths
    check_paths_lem c h = elim (any_of_first_of (is_outside is_digit fnmatch b) p.fs_ops) [
      | inl (op, e, q) ↦
          rw (e, q) (ground (arith, is_empty_append c (DriftFlag.unexpected_path op.path)))
      | inr (e, q) ↦ rw (e, q) (ground arith)
    ]

    -- The score is the number of the kinds of drift that are flagged, in fifths, and there are details
    -- exactly when it is not zero.
    pub compare_profile_to_baseline_score :
        let r = compare_profile_to_baseline is_digit fnmatch p b in
        (r.score
          ≡ bit r.network_drift
            + bit r.dns_drift
            + bit r.fs_drift
            + bit r.spawn_drift
            + bit r.timing_drift)
        × (is_empty r.details ≡ (r.score == 0))
    unfolding compare_profile_to_baseline run_checks counts
    compare_profile_to_baseline_score =
        let domains = check_domains_lem counts counts-IsCounted in
        (check_paths_lem (check_domains is_digit fnmatch p b counts) domains.0).0

    -- A kind of drift is flagged exactly when its limit is exceeded, and for the network and the files
    -- also when some domain or path is not an allowed one.
    pub compare_profile_to_baseline_drifts :
        let r = compare_profile_to_baseline is_digit fnmatch p b in
        (r.network_drift
          ≡ (over (length p.network_calls) b.expected_network_calls || has_unexpected_domain))
        × (r.dns_drift ≡ over (length p.dns_queries) b.expected_dns_queries)
        × (r.fs_drift ≡ (over (length p.fs_ops) b.expected_fs_ops || has_unexpected_path))
        × (r.spawn_drift ≡ over (length p.spawns) b.expected_spawns)
        × (r.timing_drift
            ≡ out_of_range p.total_runtime_ms b.expected_runtime_ms_range.0
                b.expected_runtime_ms_range.1)
    unfolding compare_profile_to_baseline run_checks counts
    compare_profile_to_baseline_drifts =
        let (net, dns, fs, spawn, timing) = counts_fields in
        let (counted, net1, dns1, fs1, spawn1, timing1) =
          check_domains_lem counts counts-IsCounted in
        let (_, net2, dns2, fs2, spawn2, timing2) =
          check_paths_lem (check_domains is_digit fnmatch p b counts) counted in
        (
          rw (net2, net1, net) refl,
          dns2 ∙ dns1 ∙ dns,
          rw (fs2, fs1, fs) refl,
          spawn2 ∙ spawn1 ∙ spawn,
          timing2 ∙ timing1 ∙ timing,
        )
