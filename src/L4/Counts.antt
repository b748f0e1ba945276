-- ===== src/L4/Counts.antt =====
-- l4/engine.py: what the counts of an analysis are.
use Prim.Native.Char.{Char}
use pico_dome.Base.{
  ℕ, ◌+◌, String, Bool, true, false, List, [], ◌∷◌, length, filter, ◌≡◌, refl, inl, inr, arith, ◌∙◌,
  Bool-cases, is_empty, if◌then◌else◌,
}
use pico_dome.Base.Text.{str_eq, eq_iff}
use pico_dome.Base.Dict.{Dict, lookup, insert, lookup-insert}
use pico_dome.Base.Result.{get_or}
use pico_dome.L4.Models.{BehavioralProfile, Baseline}
use pico_dome.L4.Engine.{
  Finding, AnalysisResult, severity_value, L4Engine, count_by, analyze, select_rules, find_all,
  no_rules, result_of,
}

-- `d.get(k, 0)`
abbrev pub count_of : String → Dict ℕ → ℕ
count_of k d = get_or (lookup k d) 0

count_of-insert :
    (k j : String) (n : ℕ) (d : Dict ℕ)
    → count_of j (insert k n d) ≡ (if str_eq k j then n else count_of j d)
count_of-insert k j n d = elim (Bool-cases (str_eq k j)) [
  | inl b ↦ rw (lookup-insert k j n d, b) refl
  | inr b ↦ rw (lookup-insert k j n d, b) refl
]

count_of-count_by :
    (key : Finding → String) (k : String) (d : Dict ℕ) (fs : List Finding)
    → count_of k (count_by key d fs) ≡ count_of k d + length (filter (λ f. str_eq (key f) k) fs)
unfolding count_by filter
count_of-count_by key k d [] = omega arith
count_of-count_by key k d (f ∷ fs) =
    let ih = count_of-count_by key k (insert (key f) (count_of (key f) d + 1) d) fs in
    let step = count_of-insert (key f) k (count_of (key f) d + 1) d in
    ground (arith, ih, step, eq_iff (key f) k)

count_by_lem :
    (key : Finding → String) (k : String) (fs : List Finding)
    → count_of k (count_by key [] fs) ≡ length (filter (λ f. str_eq (key f) k) fs)
unfolding lookup
count_by_lem key k fs = count_of-count_by key k [] fs ∙ omega arith

-- The counts by severity and by rule id are the numbers of the findings.
abbrev pub IsCounted : AnalysisResult → Type 0
IsCounted result =
    (k : String)
    → (count_of k result.stats.findings_by_severity
        ≡ length (filter (λ f. str_eq (severity_value f.severity) k) result.findings))
      × (count_of k result.stats.findings_by_rule
          ≡ length (filter (λ f. str_eq f.rule_id k) result.findings))

if-IsCounted :
    (b : Bool) (x y : AnalysisResult) → IsCounted x → IsCounted y → IsCounted (if b then x else y)
if-IsCounted true x y h h' = h
if-IsCounted false x y h h' = h'

module _ (is_digit : Char → Bool) (fnmatch : String → String → Bool) (duration : ℕ)
    (new_id : ℕ → String) where
  -- The statistics of an analysis count, for each severity and for each rule id, the findings of the result that
  -- have it.
  pub analyze-IsCounted :
      (deterministic : Bool) (p : BehavioralProfile) (baselines : Dict Baseline)
      (rules : List String) (e : L4Engine)
      → IsCounted (analyze is_digit fnmatch duration new_id deterministic p baselines rules e)
  unfolding analyze no_rules result_of filter lookup
  analyze-IsCounted deterministic p baselines rules e =
      let selected = select_rules rules e in
      let findings = find_all new_id deterministic p baselines selected in
      if-IsCounted (is_empty selected) (no_rules p)
        (result_of is_digit fnmatch duration p baselines findings) (λ k. (refl, refl))
        (λ k. (
          count_by_lem (λ f. severity_value f.severity) k findings,
          count_by_lem (λ f. f.rule_id) k findings,
        ))
