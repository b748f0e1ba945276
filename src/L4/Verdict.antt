-- ===== src/L4/Verdict.antt =====
-- l4/engine.py: what the verdict of an analysis says of the rules, and what its counts are.
use Prim.Native.Char.{Char}
use pico_dome.Base.{
  ℕ, ◌+◌, String, some, Bool, true, false, List, [], ◌∷◌, ◌++◌, Memᴰ, is_empty, any, any_of_mem,
  mem_of_any, ◌≡◌, ◌⊎◌, ◌↔◌, refl, inl, inr, arith, sym, ◌∙◌, if◌then◌else◌, Bool-cases,
  Option-cases, List-cases, mem-cons_cases,
}
use pico_dome.Base.Text.{str_eq}
use pico_dome.Base.Dict.{Dict, values}
use pico_dome.L4.Models.{BehavioralProfile, Baseline}
use pico_dome.L4.Engine.{
  Severity, BehavioralVerdict, clean, suspicious, malicious, Finding, AnalysisResult, DetectorRule,
  L4Engine, select_rules, run_rules, fill_ids, is_severe, is_medium, compute_verdict, analyze,
  find_all, no_rules, result_of,
}

-- Some rule reports a finding of such a severity.
abbrev pub IsReported : (Severity → Bool) → BehavioralProfile → Dict Baseline → L4Engine → Type 0
IsReported test p baselines e =
    (rule : DetectorRule) × (fs : List Finding) × (f : Finding) × Memᴰ rule (values e)
    × (rule p baselines ≡ some fs)
    × Memᴰ f fs
    × (test f.severity ≡ true)

any-append :
    (test : Finding → Bool) (xs ys : List Finding)
    → any test (xs ++ ys) ≡ true
    → (any test xs ≡ true) ⊎ (any test ys ≡ true)
unfolding any
any-append test [] ys e = inr e
any-append test (x ∷ xs) ys e = ground (arith, e, any-append test xs ys)

any-append_left :
    (test : Finding → Bool) (xs ys : List Finding) → any test xs ≡ true → any test (xs ++ ys) ≡ true
unfolding any
any-append_left test [] ys e = cc
any-append_left test (x ∷ xs) ys e = ground (arith, e, any-append_left test xs ys)

any-append_right :
    (test : Finding → Bool) (xs ys : List Finding) → any test ys ≡ true → any test (xs ++ ys) ≡ true
unfolding any
any-append_right test [] ys e = e
any-append_right test (x ∷ xs) ys e = ground (arith, any-append_right test xs ys e)

any-fill_ids :
    (test : Severity → Bool) (new_id : ℕ → String) (n : ℕ) (fs : List Finding)
    → any (λ f. test f.severity) (fill_ids new_id n fs) ≡ any (λ f. test f.severity) fs
unfolding any fill_ids
any-fill_ids test new_id n [] = refl
any-fill_ids test new_id n (f ∷ fs) = elim (Bool-cases (str_eq f.finding_id "")) [
  | inl b ↦ rw (b, any-fill_ids test new_id (n + 1) fs) refl
  | inr b ↦ rw (b, any-fill_ids test new_id (n + 1) fs) refl
]

module _ (test : Severity → Bool) (p : BehavioralProfile) (baselines : Dict Baseline) where
  IsReported-cons :
      (k : String) (r : DetectorRule) (e : L4Engine)
      → IsReported test p baselines e
      → IsReported test p baselines ((k, r) ∷ e)
  unfolding values
  IsReported-cons k r e (rule, fs, f, m, q, n, t) = (rule, fs, f, Memᴰ.tail m, q, n, t)

  run_rules-IsReported :
      (e : L4Engine)
      → any (λ f. test f.severity) (run_rules p baselines e) ≡ true
      → IsReported test p baselines e
  unfolding run_rules values any
  run_rules-IsReported [] h = cc
  run_rules-IsReported ((k, r) ∷ e) h = elim (Option-cases (r p baselines)) [
    | inl q ↦ IsReported-cons k r e (run_rules-IsReported e (rw q at h))
    | inr (fs, q) ↦
        elim (any-append (λ f. test f.severity) fs (run_rules p baselines e) (rw q at h)) [
          | inl a ↦
              let (f, m, t) = mem_of_any (λ f. test f.severity) fs a in
              (r, fs, f, Memᴰ.head refl, q, m, t)
          | inr a ↦ IsReported-cons k r e (run_rules-IsReported e a)
        ]
  ]

  any_of_IsReported :
      (e : L4Engine)
      → IsReported test p baselines e
      → any (λ f. test f.severity) (run_rules p baselines e) ≡ true
  unfolding run_rules values
  any_of_IsReported [] (rule, fs, f, m, q, n, t) = elim m [ ]
  any_of_IsReported ((k, r) ∷ e) (rule, fs, f, m, q, n, t) = elim (mem-cons_cases m) [
    | inl s ↦
        let q' : r p baselines ≡ some fs = rw s at q in
        rw q' (
          any-append_left (λ f. test f.severity) fs (run_rules p baselines e)
            (any_of_mem (λ f. test f.severity) fs n t))
    | inr m' ↦ elim (Option-cases (r p baselines)) [
      | inl q' ↦ rw q' (any_of_IsReported e (rule, fs, f, m', q, n, t))
      | inr (gs, q') ↦ rw q' (
          any-append_right (λ f. test f.severity) gs (run_rules p baselines e)
            (any_of_IsReported e (rule, fs, f, m', q, n, t)))
    ]
  ]

compute_verdict_malicious :
    (fs : List Finding)
    → (compute_verdict fs ≡ malicious) ↔ (any (λ f. is_severe f.severity) fs ≡ true)
unfolding compute_verdict any
compute_verdict_malicious [] = ground arith
compute_verdict_malicious (f ∷ fs) = ground arith

compute_verdict_suspicious :
    (fs : List Finding)
    → (compute_verdict fs ≡ suspicious)
      ↔ ((any (λ f. is_medium f.severity) fs ≡ true) × (any (λ f. is_severe f.severity) fs ≡ false))
unfolding compute_verdict any
compute_verdict_suspicious [] = ground arith
compute_verdict_suspicious (f ∷ fs) = ground arith

if-overall_verdict :
    (b : Bool) (x y : AnalysisResult)
    → (if b then x else y).overall_verdict ≡ (if b then x.overall_verdict else y.overall_verdict)
if-overall_verdict true x y = refl
if-overall_verdict false x y = refl

none_of : (b : Bool) → ¬ (b ≡ true) → b ≡ false
none_of true h = absurd (h refl)
none_of false h = refl

-- the verdict
module _ (is_digit : Char → Bool) (fnmatch : String → String → Bool) (duration : ℕ)
    (new_id : ℕ → String) (deterministic : Bool) (p : BehavioralProfile) (baselines : Dict Baseline)
    (rules : List String) (e : L4Engine) where
  abbrev pub verdict : BehavioralVerdict
  verdict =
      (analyze is_digit fnmatch duration new_id deterministic p baselines rules e).overall_verdict

  abbrev ran : List Finding
  ran = run_rules p baselines (select_rules rules e)

  abbrev found : List Finding
  found = find_all new_id deterministic p baselines (select_rules rules e)

  any-found :
      (test : Severity → Bool) → any (λ f. test f.severity) found ≡ any (λ f. test f.severity) ran
  unfolding find_all
  any-found test = elim (Bool-cases deterministic) [
    | inl b ↦ rw b refl
    | inr b ↦ rw (b, any-fill_ids test new_id 0 ran) refl
  ]

  verdict_branch :
      verdict ≡ (if is_empty (select_rules rules e) then clean else compute_verdict found)
  unfolding analyze no_rules result_of
  verdict_branch =
      if-overall_verdict (is_empty (select_rules rules e)) (no_rules p)
        (result_of is_digit fnmatch duration p baselines found)

  found_nothing : select_rules rules e ≡ [] → found ≡ []
  unfolding find_all run_rules fill_ids
  found_nothing q = elim (Bool-cases deterministic) [
    | inl b ↦ rw (b, q) refl
    | inr b ↦ rw (b, q) refl
  ]

  verdict_lem : verdict ≡ compute_verdict found
  unfolding compute_verdict
  verdict_lem = verdict_branch ∙ elim (List-cases (select_rules rules e)) [
    | inl q ↦ rw (found_nothing q, q) refl
    | inr (x, xs, q) ↦ rw q refl
  ]

  find_all-IsReported :
      (test : Severity → Bool)
      → (any (λ f. test f.severity) found ≡ true)
        ↔ IsReported test p baselines (select_rules rules e)
  find_all-IsReported test = rw (any-found test) (
    run_rules-IsReported test p baselines (select_rules rules e),
    any_of_IsReported test p baselines (select_rules rules e),
  )

  -- Of an analysis by the selected rules: the verdict is malicious exactly when some of them reports a
  -- critical or high finding, and suspicious exactly when none does and some of them reports a medium one.
  pub analyze_verdict :
      ((verdict ≡ malicious) ↔ IsReported is_severe p baselines (select_rules rules e))
      × ((verdict ≡ suspicious) ↔ (
          IsReported is_medium p baselines (select_rules rules e)
          × ¬ IsReported is_severe p baselines (select_rules rules e)))
  analyze_verdict =
      let (of_malicious, to_malicious) = compute_verdict_malicious found in
      let (of_suspicious, to_suspicious) = compute_verdict_suspicious found in
      let (severe, some_severe) = find_all-IsReported is_severe in
      let (medium_one, some_medium) = find_all-IsReported is_medium in
      (
        (
          λ v. severe (of_malicious (sym verdict_lem ∙ v)),
          λ r. verdict_lem ∙ to_malicious (some_severe r),
        ),
        (
          λ v.
              let (m, s) = of_suspicious (sym verdict_lem ∙ v) in
              (medium_one m, λ r. let s' = some_severe r in cc),
          λ (m, no_severe).
              verdict_lem ∙ to_suspicious (some_medium m, none_of _ (λ s. no_severe (severe s))),
        ),
      )
