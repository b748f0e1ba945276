-- ===== src/Auth/Tokens.antt =====
-- auth.py: `TokenAuth`. Times are milliseconds. The environment is an argument: whether
-- `PICODOME_DEV_MODE` is set, and the entries of the token sources, split and stripped.
use Prim.Native.Char.{code}
use Prim.Native.String.{count}
use pico_dome.Base.{
  ℕ, ◌+◌, ◌-◌, ◌*◌, ◌^◌, min, String, Option, none, some, Bool, true, false, not, ◌&&◌, List, [],
  ◌∷◌, ◌++◌, ltb, ◌==◌, length, is_empty, is_some, if◌then◌else◌,
}
use pico_dome.Base.Text.{contains}
use pico_dome.Base.Dict.{Dict, lookup, insert, pop}
use pico_dome.Auth.Rbac.{Rbac, empty_rbac, reader, register_token}

abbrev pub min_token_length : ℕ
min_token_length = 32

abbrev pub max_failed_attempts : ℕ
max_failed_attempts = 5

abbrev pub backoff_base : ℕ
backoff_base = 1000

abbrev pub backoff_max : ℕ
backoff_max = 16000

pub record TokenAuth : Type 0 where
  pub rbac : Rbac
  pub token_hashes : List String
  -- token hash to the number of failures and the time of the last
  pub failed_attempts : Dict (ℕ × ℕ)
  pub is_enterprise : Bool

-- The rest of a text behind a prefix.
unfoldable pub strip_prefix : String → String → Option String
strip_prefix String.[] s = some s
strip_prefix (String.◌∷◌ c p) String.[] = none
strip_prefix (String.◌∷◌ c p) (String.◌∷◌ d s) = if code c == code d then strip_prefix p s else none

-- The text before the first dash, if there is one.
unfoldable pub before_dash : String → Option String
before_dash String.[] = none
before_dash (String.◌∷◌ c s) =
    let rest : Option String = elim (before_dash s) [
      | none ↦ none
      | some r ↦ some (String.◌∷◌ c r)
    ] in
    if code c == b'-' then some "" else rest

module _ (hash_token : String → String) where
  -- The role that a token names, `picodome-<role>-<secret>`; a token of another form is a reader's.
  unfoldable pub register_role : String → Rbac → Rbac
  unfolding strip_prefix before_dash register_token
  register_role token r = elim (strip_prefix "picodome-" token) [
    | none ↦ register_token hash_token token reader r
    | some rest ↦ elim (before_dash rest) [
      | none ↦ r
      | some role ↦ register_token hash_token token role r
    ]
  ]

  -- `_add_token`
  unfoldable pub add_token : String → TokenAuth → TokenAuth
  unfolding register_role contains
  add_token token a =
      let h = hash_token token in
      if ltb (count token) 4
      then a
      else if a.is_enterprise && ltb (count token) min_token_length
      then a
      else if contains a.token_hashes h
      then a
      else record a { token_hashes = h ∷ a.token_hashes; rbac = register_role token a.rbac }

  unfoldable pub add_tokens : List String → TokenAuth → TokenAuth
  unfolding add_token
  add_tokens [] a = a
  add_tokens (t ∷ ts) a = add_tokens ts (add_token t a)

  -- The lines of the token file that are not comments.
  unfoldable pub file_tokens : List String → List String
  unfolding strip_prefix
  file_tokens [] = []
  file_tokens (l ∷ ls) =
      let rest = file_tokens ls in if is_some (strip_prefix "#" l) then rest else l ∷ rest

  -- `__init__`; `none` is the `AuthError` of a development mode in enterprise mode. Empty entries
  -- are too short to be added.
  unfoldable pub new_auth : Bool → Bool → List String → List String → Option TokenAuth
  unfolding add_tokens file_tokens
  new_auth is_enterprise dev_mode env_tokens lines =
      let empty : TokenAuth = record {
        rbac = empty_rbac;
        token_hashes = [];
        failed_attempts = [];
        is_enterprise = is_enterprise;
      } in
      if is_enterprise && dev_mode
      then none
      else some (add_tokens (env_tokens ++ file_tokens lines) empty)

-- The power of two from which on an integer is too large for a float.
abbrev pub max_float_exponent : ℕ
max_float_exponent = 1024

-- The wait after so many failures; `none` where the product with the float raises OverflowError.
unfoldable pub backoff : ℕ → Option ℕ
backoff attempts =
    let exponent = attempts - max_failed_attempts in
    if ltb exponent max_float_exponent
    then some (min (backoff_base * 2 ^ exponent) backoff_max)
    else none

-- What `_check_brute_force` returns, or that it raises.
pub data Wait : Type 0 where
  no_wait : Wait
  must_wait : ℕ → Wait
  overflows : Wait

-- `_check_brute_force`
unfoldable pub check_brute_force : ℕ → String → TokenAuth → Wait
unfolding backoff
check_brute_force now h a = elim (lookup h a.failed_attempts) [
  | none ↦ no_wait
  | some (attempts, last_time) ↦
      if ltb attempts max_failed_attempts then no_wait else elim (backoff attempts) [
        | none ↦ overflows
        | some wait ↦
            if ltb (now - last_time) wait then must_wait (wait - (now - last_time)) else no_wait
      ]
]

-- `_record_failure`
unfoldable pub record_failure : ℕ → String → TokenAuth → TokenAuth
record_failure now h a =
    let attempts : ℕ = elim (lookup h a.failed_attempts) [ none ↦ 1 | some (n, _) ↦ n + 1 ] in
    record a { failed_attempts = insert h (attempts, now) a.failed_attempts }

unfoldable pub drop_stale_failures : ℕ → Dict (ℕ × ℕ) → Dict (ℕ × ℕ)
drop_stale_failures now [] = []
drop_stale_failures now ((h, (n, t)) ∷ d) =
    let rest = drop_stale_failures now d in
    if ltb 3600000 (now - t) then rest else (h, (n, t)) ∷ rest

-- `_clear_failures`, with `_cleanup_stale_failures`
unfoldable pub clear_failures : ℕ → String → TokenAuth → TokenAuth
unfolding drop_stale_failures
clear_failures now h a =
    let left = pop h a.failed_attempts in
    record a {
      failed_attempts = if ltb 1000 (length left) then drop_stale_failures now left else left;
    }

-- The loop over the stored hashes, with what is done on a match and after the last.
unfoldable pub match_hash : ℕ → String → TokenAuth → TokenAuth × Bool
unfolding clear_failures record_failure contains
match_hash now h a =
    if contains a.token_hashes h
    then (clear_failures now h a, true)
    else (record_failure now h a, false)

module _ (hash_token : String → String) where
  -- What follows if no wait is running.
  unfoldable pub validate_free : ℕ → Bool → String → TokenAuth → TokenAuth × Bool
  unfolding match_hash
  validate_free now dev_mode token a =
      let h = hash_token token in
      if a.is_enterprise
      then (if is_empty a.token_hashes
          then (record_failure now h a, false)
          else if ltb (count token) min_token_length
          then (record_failure now h a, false)
          else match_hash now h a)
      else if is_empty a.token_hashes
      then (if dev_mode then (a, true) else (record_failure now h a, false))
      else match_hash now h a

  -- The answer is `none` if an exception is raised.
  unfoldable pub validate : ℕ → Bool → String → TokenAuth → TokenAuth × Option Bool
  unfolding check_brute_force validate_free
  validate now dev_mode token a = elim (check_brute_force now (hash_token token) a) [
    | overflows ↦ (a, none)
    | must_wait _ ↦ (a, some false)
    | no_wait ↦ let (a', passed) = validate_free now dev_mode token a in (a', some passed)
  ]

-- `is_configured`
unfoldable pub is_configured : Bool → TokenAuth → Bool
is_configured dev_mode a =
    if a.is_enterprise
    then not (is_empty a.token_hashes)
    else if dev_mode
    then true
    else not (is_empty a.token_hashes)
