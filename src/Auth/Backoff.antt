-- ===== src/Auth/Backoff.antt =====
-- auth.py: the back-off grows and is bounded, and it bounds how often one token can be tried.
use native.Mathlib.Nat.{pow-suc}
use pico_dome.Base.{
  ℕ, refl, ap, true, ltb, some_injective, zero, suc, ◌+◌, ◌-◌, ◌*◌, ◌^◌, ◌≤◌, ◌<◌, min, max, String,
  none, some, Bool, false, ◌&&◌, not, List, [], ◌∷◌, ◌≡◌, ◌⊎◌, inl, inr, arith, is_empty,
  Bool-cases, Option-cases,
}
use pico_dome.Base.Text.{contains}
use pico_dome.Base.Dict.{lookup, lookup-insert_self}
use pico_dome.Auth.Validate.{Wait-cases}
use pico_dome.Auth.Tokens.{
  TokenAuth, backoff, check_brute_force, record_failure, match_hash, validate, validate_free,
  no_wait, must_wait, overflows,
}

pow_pos : (n : ℕ) → 0 < 2 ^ n
pow_pos zero = omega arith
pow_pos (suc n) = rw (pow-suc 2 n) (omega (arith, pow_pos n))

bounded : ℕ → ℕ
bounded e = min (1000 * 2 ^ e) 16000

bounded_doubles :
    (e : ℕ)
    → (1000 ≤ bounded e) × (bounded e ≤ 16000) × (bounded (suc e) ≡ min (2 * bounded e) 16000)
unfolding bounded
bounded_doubles e = rw (pow-suc 2 e) (omega (arith, pow_pos e))

-- From the fifth failure on, and for 1023 more of them, the wait is at least one second and at most sixteen,
-- and each further failure doubles it up to that.
pub backoff_doubles :
    (n : ℕ)
    → 5 ≤ n
    → n < 1028
    → (w : ℕ) × (backoff n ≡ some w)
      × (1000 ≤ w)
      × (w ≤ 16000)
      × (backoff (suc n) ≡ some (min (2 * w) 16000))
unfolding backoff bounded
backoff_doubles n h l =
    let e : suc n - 5 ≡ suc (n - 5) = omega arith in
    let now : ltb (n - 5) 1024 ≡ true = ground (arith, l) in
    let next : ltb (suc n - 5) 1024 ≡ true = ground (arith, l) in
    let (low, high, twice) = bounded_doubles (n - 5) in
    (bounded (n - 5), rw now refl, low, high, rw (next, e) (ap some twice))

-- From the 1029th failure on the wait cannot be computed.
pub backoff_overflows : (n : ℕ) → 1029 ≤ n → backoff n ≡ none
unfolding backoff
backoff_overflows n h = ground (arith, h)

backoff_least : (n w : ℕ) → backoff n ≡ some w → 1000 ≤ w
unfolding backoff bounded
backoff_least n w e = elim (Bool-cases (ltb (n - 5) 1024)) [
  | inl b ↦
      let same : bounded (n - 5) ≡ w = some_injective (rw b at e) in
      rw (← same) (bounded_doubles (n - 5)).0
  | inr b ↦ let none_some : none ≡ some w = rw b at e in cc
]

module _ (hash_token : String → String) where
  -- Within the wait of a locked token nothing is looked at: also the right token is refused.
  pub validate_locked :
      (now : ℕ) (dev_mode : Bool) (token : String) (n t w : ℕ) (a : TokenAuth)
      → lookup (hash_token token) a.failed_attempts ≡ some (n, t)
      → 5 ≤ n
      → backoff n ≡ some w
      → now - t < w
      → validate hash_token now dev_mode token a ≡ (a, some false)
  unfolding validate check_brute_force
  validate_locked now dev_mode token n t w a e h b l =
      let locked : ltb n 5 ≡ false = ground (arith, h) in
      let running : ltb (now - t) w ≡ true = ground (arith, l) in
      rw (validate, check_brute_force, e, locked, b, running) refl

  free_wrong :
      (now : ℕ) (dev_mode : Bool) (token : String) (a : TokenAuth)
      → contains a.token_hashes (hash_token token) ≡ false
      → let a' = (validate_free hash_token now dev_mode token a).0 in
        (a' ≡ a) ⊎ (a' ≡ record_failure now (hash_token token) a)
  unfolding validate_free match_hash
  free_wrong now dev_mode token a c =
      elim (Bool-cases (is_empty a.token_hashes && not a.is_enterprise && dev_mode)) [
        | inl q ↦ inl (ground arith)
        | inr q ↦ inr (ground arith)
      ]

  -- A token that is not stored is refused without a trace, or its failure is recorded, or it passes
  -- in the development mode.
  validate_wrong :
      (now : ℕ) (dev_mode : Bool) (token : String) (a : TokenAuth)
      → contains a.token_hashes (hash_token token) ≡ false
      → let a' = (validate hash_token now dev_mode token a).0 in
        let h = hash_token token in
        (a' ≡ a) ⊎ ((check_brute_force now h a ≡ no_wait) × (a' ≡ record_failure now h a))
  unfolding validate
  validate_wrong now dev_mode token a c =
      elim (Wait-cases (check_brute_force now (hash_token token) a)) [
        | inr (inl e) ↦ inl (rw (validate, e) refl)
        | inr (inr (w, e)) ↦ inl (rw (validate, e) refl)
        | inl e ↦ elim (free_wrong now dev_mode token a c) [
          | inl q ↦ inl (rw (validate, e) q)
          | inr q ↦ inr (e, rw (validate, e) q)
        ]
      ]

  unfoldable pub validate_all : List ℕ → Bool → String → TokenAuth → TokenAuth
  unfolding validate
  validate_all [] dev_mode token a = a
  validate_all (now ∷ times) dev_mode token a =
      validate_all times dev_mode token (validate hash_token now dev_mode token a).0

  abbrev pub IsTimed : ℕ → List ℕ → ℕ → Type 0
  IsTimed start [] last = start ≤ last
  IsTimed start (now ∷ times) last = (start ≤ now) × IsTimed now times last

  IsTimed-weaken :
      (s t : ℕ) (times : List ℕ) (last : ℕ) → s ≤ t → IsTimed t times last → IsTimed s times last
  IsTimed-weaken s t [] last h k = omega arith
  IsTimed-weaken s t (now ∷ times) last h k = (omega arith, k.1)

  IsTimed-le : (start : ℕ) (times : List ℕ) (last : ℕ) → IsTimed start times last → start ≤ last
  IsTimed-le start [] last h = h
  IsTimed-le start (now ∷ times) last h = omega (arith, IsTimed-le now times last h.1)

  -- The failures that are counted for the token by the time `last`.
  abbrev pub Counted : String → ℕ → ℕ → TokenAuth → Type 0
  Counted token bound last a =
      (n : ℕ) × (t : ℕ) × (lookup (hash_token token) a.failed_attempts ≡ some (n, t))
      × (t ≤ last)
      × (1000 * n ≤ bound)

  check_passed :
      (now : ℕ) (h : String) (n t : ℕ) (a : TokenAuth)
      → lookup h a.failed_attempts ≡ some (n, t)
      → check_brute_force now h a ≡ no_wait
      → (n < 5) ⊎ (1000 ≤ now - t)
  unfolding check_brute_force
  check_passed now h n t a e c = elim (Bool-cases (ltb n 5)) [
    | inl b ↦ inl (ground (arith, b))
    | inr b ↦ elim (Option-cases (backoff n)) [
      | inl w ↦ (let bad : overflows ≡ no_wait = rw (check_brute_force, e, b, w) at c in cc)
      | inr (w, q) ↦ elim (Bool-cases (ltb (now - t) w)) [
        | inl r ↦
            let bad : must_wait (w - (now - t)) ≡ no_wait =
              rw (check_brute_force, e, b, q, r) at c in
            cc
        | inr r ↦ inr (ground (arith, r, backoff_least n w q))
      ]
    ]
  ]

  record_failure_lem :
      (now : ℕ) (h : String) (n t : ℕ) (a : TokenAuth)
      → lookup h a.failed_attempts ≡ some (n, t)
      → lookup h (record_failure now h a).failed_attempts ≡ some (n + 1, now)
  unfolding record_failure
  record_failure_lem now h n t a e = rw e (lookup-insert_self h (n + 1, now) a.failed_attempts)

  -- However often and whenever a token that is not stored is tried, the failures that are counted
  -- beyond the fifth number at most one for each second since the last failure.
  pub validate_all_bounded :
      (times : List ℕ) (dev_mode : Bool) (token : String) (n t last : ℕ) (a : TokenAuth)
      → contains a.token_hashes (hash_token token) ≡ false
      → lookup (hash_token token) a.failed_attempts ≡ some (n, t)
      → IsTimed t times last
      → Counted token (1000 * max n 5 + (last - t)) last (validate_all times dev_mode token a)
  unfolding validate_all record_failure
  validate_all_bounded [] dev_mode token n t last a c e h = (n, t, e, h, omega arith)
  validate_all_bounded (now ∷ times) dev_mode token n t last a c e h =
      let a' = (validate hash_token now dev_mode token a).0 in
      let after = IsTimed-le now times last h.1 in
      elim (validate_wrong now dev_mode token a c) [
        | inl same ↦
            validate_all_bounded times dev_mode token n t last a' (rw same c) (rw same e)
              (IsTimed-weaken t now times last h.0 h.1)
        | inr (free, recorded) ↦
            let (n', t', e', le, bound) =
              validate_all_bounded times dev_mode token (n + 1) now last a'
                (rw recorded (kept now (hash_token token) a c))
                (rw recorded (record_failure_lem now (hash_token token) n t a e)) h.1 in
            let slow = check_passed now (hash_token token) n t a e free in
            (n', t', e', le, grind (arith, slow))
      ]
    where
      kept :
          (now : ℕ) (k : String) (a : TokenAuth)
          → contains a.token_hashes (hash_token token) ≡ false
          → contains (record_failure now k a).token_hashes (hash_token token) ≡ false
      kept now k a c = c
