-- ===== src/L4/Guard.antt =====
-- guards.py: `_check_analysis` of `DeterministicGuard`. The two patterns and the text of a dictionary are arguments;
-- a violation is what its text is made of.
use Prim.Native.Char.{Char}
use pico_dome.Base.{
  ℕ, ◌+◌, String, Bool, true, false, not, ◌&&◌, List, [], ◌∷◌, ◌++◌, All, ◌≡◌, ◌≢◌, ◌↔◌, ◌⊎◌, refl,
  inl, inr, arith, ◌∙◌, if◌then◌else◌, is_empty,
}
use pico_dome.Base.Text.{str_eq, str_leb, eq_iff}
use pico_dome.Base.Dict.{Dict}
use pico_dome.Base.Sort.{sort_by}
use pico_dome.L4.Models.{BehavioralProfile, Baseline}
use pico_dome.L4.Engine.{
  Finding, AnalysisResult, L4Engine, select_rules, find_all, no_rules, result_of, run_rules,
  fill_ids, analyze,
}

pub data Violation : Type 0 where
  uuid_in_id time_in_message time_in_evidence uuid_in_message : Finding → Violation
  keys_not_sorted : Violation

-- The keys of `AnalysisResult.to_dict`
abbrev pub result_keys : List String
result_keys = "drift_results" ∷ "findings" ∷ "overall_verdict" ∷ "profile" ∷ "stats" ∷ "target" ∷ []

unfoldable pub same_texts : List String → List String → Bool
same_texts [] [] = true
same_texts [] (y ∷ ys) = false
same_texts (x ∷ xs) [] = false
same_texts (x ∷ xs) (y ∷ ys) = str_eq x y && same_texts xs ys

unfoldable pub check_keys : List String → List Violation
unfolding same_texts sort_by str_leb
check_keys keys = if same_texts keys (sort_by str_leb keys) then [] else keys_not_sorted ∷ []

-- `violations.append(v)` under a condition
unfoldable pub flag : Bool → Violation → List Violation → List Violation
flag b v rest = if b then v ∷ rest else rest

module _ (is_uuid has_uuid has_time : String → Bool) (text_of : Dict String → String) where
  unfoldable pub has_uuid_id : Finding → Bool
  has_uuid_id f = not (str_eq f.finding_id "") && is_uuid f.finding_id

  unfoldable pub check_ids : List Finding → List Violation
  unfolding flag has_uuid_id
  check_ids [] = []
  check_ids (f ∷ fs) = flag (has_uuid_id f) (uuid_in_id f) (check_ids fs)

  unfoldable pub check_times : List Finding → List Violation
  unfolding flag
  check_times [] = []
  check_times (f ∷ fs) =
      flag (has_time f.message) (time_in_message f)
        (flag (has_time (text_of f.evidence)) (time_in_evidence f) (check_times fs))

  unfoldable pub check_messages : List Finding → List Violation
  unfolding flag
  check_messages [] = []
  check_messages (f ∷ fs) = flag (has_uuid f.message) (uuid_in_message f) (check_messages fs)

  unfoldable pub check_analysis : AnalysisResult → List Violation
  unfolding check_ids check_times check_messages check_keys
  check_analysis result =
      check_ids result.findings
      ++ check_times result.findings
      ++ check_messages result.findings
      ++ check_keys result_keys

  -- A finding with no UUID as its id or in its message, and with no timestamp.
  abbrev pub IsDeterministic : Finding → Type 0
  IsDeterministic f =
      ((f.finding_id ≡ "") ⊎ (is_uuid f.finding_id ≡ false))
      × (has_time f.message ≡ false)
      × (has_time (text_of f.evidence) ≡ false)
      × (has_uuid f.message ≡ false)

  append_empty : (xs ys : List Violation) → (xs ++ ys ≡ []) ↔ ((xs ≡ []) × (ys ≡ []))
  append_empty [] ys = ground arith
  append_empty (x ∷ xs) ys = ground arith

  flag_empty :
      (b : Bool) (v : Violation) (rest : List Violation)
      → (flag b v rest ≡ []) ↔ ((b ≡ false) × (rest ≡ []))
  unfolding flag
  flag_empty b v rest = ground arith

  check_keys-result_keys : check_keys result_keys ≡ []
  unfolding check_keys
  check_keys-result_keys = refl

  has_uuid_id_lem :
      (f : Finding)
      → (has_uuid_id f ≡ false) ↔ ((f.finding_id ≡ "") ⊎ (is_uuid f.finding_id ≡ false))
  unfolding has_uuid_id
  has_uuid_id_lem f = ground (arith, eq_iff f.finding_id "")

  checks-IsDeterministic :
      (fs : List Finding)
      → ((check_ids fs ≡ []) × (check_times fs ≡ []) × (check_messages fs ≡ []))
        ↔ All IsDeterministic fs
  unfolding check_ids check_times check_messages
  checks-IsDeterministic [] = ground arith
  checks-IsDeterministic (f ∷ fs) = ground (
    arith,
    has_uuid_id_lem f,
    flag_empty (has_uuid_id f) (uuid_in_id f) (check_ids fs),
    flag_empty (has_time f.message) (time_in_message f)
        (flag (has_time (text_of f.evidence)) (time_in_evidence f) (check_times fs)),
    flag_empty (has_time (text_of f.evidence)) (time_in_evidence f) (check_times fs),
    flag_empty (has_uuid f.message) (uuid_in_message f) (check_messages fs),
    checks-IsDeterministic fs,
  )

  check_analysis-IsDeterministic :
      (result : AnalysisResult) → (check_analysis result ≡ []) ↔ All IsDeterministic result.findings
  unfolding check_analysis
  check_analysis-IsDeterministic result =
      let fs = result.findings in
      ground (
        arith,
        check_keys-result_keys,
        append_empty (check_ids fs) (check_times fs ++ check_messages fs ++ check_keys result_keys),
        append_empty (check_times fs) (check_messages fs ++ check_keys result_keys),
        append_empty (check_messages fs) (check_keys result_keys),
        checks-IsDeterministic fs,
      )

  module _ (new_id : ℕ → String)
      (new_ids : (n : ℕ) → (new_id n ≢ "") × (is_uuid (new_id n) ≡ true)) where
    new_id-not_deterministic : (n : ℕ) → ¬ ((new_id n ≡ "") ⊎ (is_uuid (new_id n) ≡ false))
    new_id-not_deterministic n = let (a, b) = new_ids n in elim [ inl e ↦ a e | inr e ↦ cc ]

    had_ids :
        (n : ℕ) (fs : List Finding)
        → All IsDeterministic (fill_ids new_id n fs)
        → All (λ f. f.finding_id ≢ "") fs
    unfolding fill_ids
    had_ids n [] h = tt
    had_ids n (f ∷ fs) (h, hs) = (
      λ e.
          let b : str_eq f.finding_id "" ≡ true = ground (arith, eq_iff f.finding_id "", e) in
          new_id-not_deterministic n (rw b at h).0,
      had_ids (n + 1) fs hs,
    )

    module _ (is_digit : Char → Bool) (fnmatch : String → String → Bool) (duration : ℕ)
        (p : BehavioralProfile) (baselines : Dict Baseline) (rules : List String)
        (e : L4Engine) where
      abbrev result : Bool → AnalysisResult
      result deterministic =
          analyze is_digit fnmatch duration new_id deterministic p baselines rules e

      if-findings :
          (b : Bool) (x y : AnalysisResult)
          → (if b then x else y).findings ≡ (if b then x.findings else y.findings)
      if-findings true x y = refl
      if-findings false x y = refl

      nothing_missed :
          (deterministic : Bool) (selected : L4Engine)
          → (if is_empty selected then [] else find_all new_id deterministic p baselines selected)
            ≡ find_all new_id deterministic p baselines selected
      unfolding find_all run_rules fill_ids
      nothing_missed true [] = refl
      nothing_missed false [] = refl
      nothing_missed deterministic (r ∷ rest) = refl

      analyze-findings :
          (deterministic : Bool)
          → (result deterministic).findings
            ≡ find_all new_id deterministic p baselines (select_rules rules e)
      unfolding analyze no_rules result_of
      analyze-findings deterministic =
          let selected = select_rules rules e in
          if-findings (is_empty selected) (no_rules p) (
            result_of is_digit fnmatch duration p baselines
              (find_all new_id deterministic p baselines selected))
          ∙ nothing_missed deterministic selected

      -- Where new ids are UUIDs, the guard finds nothing in the result of an analysis exactly if no finding has a UUID
      -- as its id or in its message, or a timestamp in its message or its evidence; and if it finds nothing where ids
      -- were asked for, each finding of the rules had an id of its own.
      pub check_analysis-analyze :
          ((deterministic : Bool)
            → (check_analysis (result deterministic) ≡ [])
              ↔ All IsDeterministic
                  (find_all new_id deterministic p baselines (select_rules rules e)))
          × (check_analysis (result false) ≡ []
              → All (λ f. f.finding_id ≢ "") (run_rules p baselines (select_rules rules e)))
      unfolding find_all analyze
      check_analysis-analyze =
          let passes : (deterministic : Bool)
              → (check_analysis (result deterministic) ≡ [])
                ↔ All IsDeterministic
                    (find_all new_id deterministic p baselines (select_rules rules e)) =
            λ d. rw (analyze-findings d) at (check_analysis-IsDeterministic (result d)) in
          (
            passes,
            λ q. had_ids 0 (run_rules p baselines (select_rules rules e)) ((passes false).0 q),
          )
