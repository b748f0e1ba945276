-- ===== src/Auth/Validate.antt =====
-- auth.py: what `validate` answers and what it counts.
use Prim.Native.String.{count}
use pico_dome.Base.{
  ℕ, ◌+◌, String, Option, none, some, Bool, true, false, ◌&&◌, List, [], ◌∷◌, ◌≡◌, ◌≢◌, refl, ◌⊎◌,
  ap, inl, inr, arith, leb, length, is_empty, if◌then◌else◌, Bool-cases, Option-cases,
}
use pico_dome.Base.Text.{contains, eq_refl}
use pico_dome.Base.Dict.{Dict, lookup, pop, lookup-insert_self, lookup-insert_ne, lookup-pop}
use pico_dome.Auth.Tokens.{
  TokenAuth, min_token_length, check_brute_force, record_failure, drop_stale_failures,
  clear_failures, match_hash, validate, validate_free, Wait, no_wait, must_wait, overflows,
}

-- Who may pass when no wait is running.
abbrev pub may_pass : Bool → Bool → List String → ℕ → String → Bool
may_pass is_enterprise dev_mode hashes length h =
    if is_enterprise
    then leb min_token_length length && contains hashes h
    else if is_empty hashes
    then dev_mode
    else contains hashes h

contains-nil : (xs : List String) (h : String) → is_empty xs ≡ true → contains xs h ≡ false
unfolding contains
contains-nil [] h e = refl
contains-nil (x ∷ xs) h e = cc

lookup-drop_stale_failures :
    (now : ℕ) (h : String) (d : Dict (ℕ × ℕ))
    → lookup h d ≡ none
    → lookup h (drop_stale_failures now d) ≡ none
unfolding lookup drop_stale_failures
lookup-drop_stale_failures now h [] e = refl
lookup-drop_stale_failures now h ((k, (n, t)) ∷ d) e =
    ground (arith, lookup-drop_stale_failures now h d)

lookup-clear_failures :
    (now : ℕ) (h : String) (a : TokenAuth)
    → lookup h (clear_failures now h a).failed_attempts ≡ none
unfolding clear_failures
lookup-clear_failures now h a =
    let gone : lookup h (pop h a.failed_attempts) ≡ none = rw (lookup-pop, eq_refl) in
    ground (arith, lookup-drop_stale_failures now h (pop h a.failed_attempts))

both : {t : Bool} → t ≡ true → t ≡ false → ⊥
both p q = cc

-- One more failure, now.
abbrev pub one_more : ℕ → Option (ℕ × ℕ) → ℕ × ℕ
one_more now none = (1, now)
one_more now (some (n, _)) = (n + 1, now)

lookup-record_failure :
    (now : ℕ) (h : String) (a : TokenAuth)
    → lookup h (record_failure now h a).failed_attempts
      ≡ some (one_more now (lookup h a.failed_attempts))
unfolding record_failure
lookup-record_failure now h a = elim (Option-cases (lookup h a.failed_attempts)) [
  | inl e ↦ rw e (lookup-insert_self h (1, now) a.failed_attempts)
  | inr ((n, t), e) ↦ rw e (lookup-insert_self h (n + 1, now) a.failed_attempts)
]

lookup-record_failure_ne :
    (now : ℕ) (h k : String) (a : TokenAuth)
    → h ≢ k
    → lookup k (record_failure now h a).failed_attempts ≡ lookup k a.failed_attempts
unfolding record_failure
lookup-record_failure_ne now h k a ne = lookup-insert_ne h k _ a.failed_attempts ne

pub Wait-cases : (w : Wait) → (w ≡ no_wait) ⊎ (w ≡ overflows) ⊎ ((n : ℕ) × (w ≡ must_wait n))
Wait-cases no_wait = inl refl
Wait-cases overflows = inr (inl refl)
Wait-cases (must_wait n) = inr (inr (n, refl))

-- The answer of `validate` by the wait and by who may pass without one.
abbrev pub answer_of : Wait → Bool → Option Bool
answer_of no_wait passes = some passes
answer_of (must_wait _) passes = some false
answer_of overflows passes = none

module _ (hash_token : String → String) where
  validate_free_answer :
      (now : ℕ) (dev_mode : Bool) (token : String) (a : TokenAuth)
      → (validate_free hash_token now dev_mode token a).1
        ≡ may_pass a.is_enterprise dev_mode a.token_hashes (count token) (hash_token token)
  unfolding validate_free match_hash
  validate_free_answer now dev_mode token a =
      ground (arith, contains-nil a.token_hashes (hash_token token))

  -- `validate` raises exactly if the wait cannot be computed, and else a token passes exactly if no wait is
  -- running for it and either it is stored, and in enterprise mode long enough, or, outside enterprise mode
  -- and with no token stored, the development mode is on.
  pub validate_answer :
      (now : ℕ) (dev_mode : Bool) (token : String) (a : TokenAuth)
      → (validate hash_token now dev_mode token a).1
        ≡ answer_of
            (check_brute_force now (hash_token token) a)
            (may_pass a.is_enterprise dev_mode a.token_hashes (count token) (hash_token token))
  unfolding validate
  validate_answer now dev_mode token a =
      elim (Wait-cases (check_brute_force now (hash_token token) a)) [
        | inl w ↦ rw (validate, w, answer_of) (ap some (validate_free_answer now dev_mode token a))
        | inr (inl w) ↦ rw (validate, w, answer_of) refl
        | inr (inr (n, w)) ↦ rw (validate, w, answer_of) refl
      ]

  -- How a call without a wait ended: the state and the answer.
  data Outcome (now : ℕ) (h : String) (a : TokenAuth) (r : TokenAuth × Bool) : Type 0 where
    refused : r ≡ (record_failure now h a, false) → Outcome now h a r
    matched : r ≡ (clear_failures now h a, true) → Outcome now h a r
    bypassed : contains a.token_hashes h ≡ false → r ≡ (a, true) → Outcome now h a r

  validate_free-Outcome :
      (now : ℕ) (dev_mode : Bool) (token : String) (a : TokenAuth)
      → Outcome now (hash_token token) a (validate_free hash_token now dev_mode token a)
  unfolding validate_free match_hash
  validate_free-Outcome now dev_mode token a =
      let h = hash_token token in
      elim (Bool-cases (may_pass a.is_enterprise dev_mode a.token_hashes (count token) h)) [
        | inr n ↦ refused (ground (arith, contains-nil a.token_hashes h))
        | inl y ↦ elim (Bool-cases (contains a.token_hashes h)) [
          | inl c ↦ matched (ground (arith, contains-nil a.token_hashes h))
          | inr c ↦ bypassed c (ground (arith, contains-nil a.token_hashes h))
        ]
      ]

  -- Where no wait is running, a refused token has one more failure, at this time, and every other
  -- token keeps its entry; an accepted token that is stored has no entry left. The stored tokens
  -- stay.
  pub validate_free_counts :
      (now : ℕ) (dev_mode : Bool) (token : String) (a : TokenAuth)
      → let (a', passed) = validate_free hash_token now dev_mode token a in
        let h = hash_token token in
        (a'.token_hashes ≡ a.token_hashes)
        × (passed ≡ false
            → (lookup h a'.failed_attempts ≡ some (one_more now (lookup h a.failed_attempts)))
              × ((k : String) → h ≢ k → lookup k a'.failed_attempts ≡ lookup k a.failed_attempts))
        × (passed ≡ true → contains a.token_hashes h ≡ true → lookup h a'.failed_attempts ≡ none)
  unfolding record_failure clear_failures
  validate_free_counts now dev_mode token a = elim (validate_free-Outcome now dev_mode token a) [
    | refused e ↦ rw e (
      refl,
      λ _. (
        lookup-record_failure now (hash_token token) a,
        λ k ne. lookup-record_failure_ne now (hash_token token) k a ne,
      ),
      λ p _. cc,
    )
    | matched e ↦ rw e (refl, λ p. cc, λ _ _. lookup-clear_failures now (hash_token token) a)
    | bypassed c e ↦ rw e (refl, λ p. cc, λ _ c'. absurd (both c' c))
  ]
