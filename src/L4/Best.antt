-- ===== src/L4/Best.antt =====
-- l4/differ.py: `find_best_baseline`, and which baseline it finds.
use Prim.Native.Char.{Char}
use pico_dome.Base.{
  ℕ, ◌≤◌, ◌<◌, String, Option, none, some, Bool, true, false, ◌&&◌, ◌||◌, List, [], ◌∷◌, Memᴰ, ltb,
  ◌≡◌, ◌⊎◌, refl, inl, inr, arith, if◌then◌else◌, Bool-cases, mem-cons_cases,
}
use pico_dome.Base.Text.{str_eq}
use pico_dome.Base.Dict.{Dict, values}
use pico_dome.L4.Models.{BehavioralProfile, Baseline, DriftResult}
use pico_dome.L4.Differ.{compare_profile_to_baseline}

-- The baseline is one for any package, for this package, or for this entry point.
unfoldable pub is_for : BehavioralProfile → Baseline → Bool
is_for p b =
    str_eq b.package_name "*"
    || str_eq b.package_name p.package_name
    || str_eq b.package_name p.entrypoint

module _ (is_digit : Char → Bool) (fnmatch : String → String → Bool) where
  -- The loop of `find_best_baseline`, over the values of the dictionary.
  unfoldable pub best_from :
      BehavioralProfile
      → ℕ
      → Option (Baseline × DriftResult)
      → List Baseline
      → Option (Baseline × DriftResult)
  unfolding compare_profile_to_baseline is_for
  best_from p best_score best [] = best
  best_from p best_score best (b ∷ rest) =
      let drift = compare_profile_to_baseline is_digit fnmatch p b in
      let improves = is_for p b && ltb drift.score best_score in
      best_from p (if improves then drift.score else best_score)
        (if improves then some (b, drift) else best) rest

  -- A score of 1.0 is five fifths.
  unfoldable pub find_best_baseline :
      BehavioralProfile → Dict Baseline → Option (Baseline × DriftResult)
  unfolding best_from values
  find_best_baseline p baselines = best_from p 5 none (values baselines)

  module _ (p : BehavioralProfile) where
    abbrev pub score_of : Baseline → ℕ
    score_of b = (compare_profile_to_baseline is_digit fnmatch p b).score

    -- No baseline for the profile has a score below the number.
    abbrev pub IsLowest : ℕ → List Baseline → Type 0
    IsLowest n bs = (b : Baseline) → Memᴰ b bs → is_for p b ≡ true → n ≤ score_of b

    -- The found baseline is one of the given for the profile, with its comparison and a score below the
    -- bound, and no other for the profile has a lower score; if none is found, none has a score below it.
    abbrev pub IsBest : ℕ → List Baseline → Option (Baseline × DriftResult) → Type 0
    IsBest bound bs none = IsLowest bound bs
    IsBest bound bs (some (a, r)) =
        Memᴰ a bs
        × (is_for p a ≡ true)
        × (r ≡ compare_profile_to_baseline is_digit fnmatch p a)
        × (r.score < bound)
        × IsLowest r.score bs

    IsLowest-cons :
        (n : ℕ) (b : Baseline) (rest : List Baseline)
        → (is_for p b ≡ true → n ≤ score_of b)
        → IsLowest n rest
        → IsLowest n (b ∷ rest)
    IsLowest-cons n b rest h g x m k = elim (mem-cons_cases m) [
      | inl i ↦ rw i (h (rw i at k))
      | inr o ↦ g x o k
    ]

    -- What the test of the loop says of a baseline.
    improves_cases :
        (b : Baseline) (bound : ℕ)
        → ((is_for p b && ltb (score_of b) bound ≡ true)
            × (is_for p b ≡ true)
            × (score_of b < bound))
          ⊎ ((is_for p b && ltb (score_of b) bound ≡ false)
              × (is_for p b ≡ true → bound ≤ score_of b))
    improves_cases b bound = elim (Bool-cases (is_for p b && ltb (score_of b) bound)) [
      | inl q ↦ inl (q, ground arith, ground arith)
      | inr q ↦ inr (q, λ k. ground arith)
    ]

    -- The loop keeps what it had found, or finds a baseline that is the best of the rest.
    best_from_lem :
        (bs : List Baseline) (bound : ℕ) (best : Option (Baseline × DriftResult))
        → ((best_from p bound best bs ≡ best) × IsLowest bound bs)
          ⊎ ((a : Baseline) × (r : DriftResult) × (best_from p bound best bs ≡ some (a, r))
              × IsBest bound bs (some (a, r)))
    unfolding best_from
    best_from_lem [] bound best = inl (refl, λ b m _. elim m [ ])
    best_from_lem (b ∷ rest) bound best = elim (improves_cases b bound) [
      | inl (q, for_it, lower) ↦
          let drift = compare_profile_to_baseline is_digit fnmatch p b in
          rw q (elim (best_from_lem rest (score_of b) (some (b, drift))) [
            | inl (e, h) ↦
                let lowest = IsLowest-cons (score_of b) b rest (λ _. omega arith) h in
                inr (b, drift, e, (Memᴰ.head refl, for_it, refl, lower, lowest))
            | inr (a, r, e, (m, k, c, l, h)) ↦
                let lowest = IsLowest-cons r.score b rest (λ _. omega (arith, l)) h in
                inr (a, r, e, (Memᴰ.tail m, k, c, omega (arith, l, lower), lowest))
          ])
      | inr (q, not_lower) ↦ rw q (elim (best_from_lem rest bound best) [
        | inl (e, h) ↦ inl (e, IsLowest-cons bound b rest not_lower h)
        | inr (a, r, e, (m, k, c, l, h)) ↦
            let lowest = IsLowest-cons r.score b rest (λ f. omega (arith, l, not_lower f)) h in
            inr (a, r, e, (Memᴰ.tail m, k, c, l, lowest))
      ])
    ]

    -- `find_best_baseline` finds a baseline for the profile with the lowest score, if some baseline for
    -- it has a score below five fifths, and none otherwise.
    pub find_best_baseline-IsBest :
        (baselines : Dict Baseline) → IsBest 5 (values baselines) (find_best_baseline p baselines)
    unfolding find_best_baseline
    find_best_baseline-IsBest baselines = elim (best_from_lem (values baselines) 5 none) [
      | inl (e, h) ↦ rw e h
      | inr (a, r, e, h) ↦ rw e h
    ]
