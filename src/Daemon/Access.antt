-- ===== src/Daemon/Access.antt =====
-- daemon/server.py: `_require_auth` and `_require_permission`, with the error codes of errors.py and the
-- audit events that the two emit. The SHA-256 of a token and `strip` are arguments.
use pico_dome.Base.{
  ℕ, zero, suc, String, Option, none, some, Bool, true, false, not, List, [], ◌∷◌, ◌++◌, ◌≡◌, ◌⊎◌,
  refl, inl, inr, if◌then◌else◌,
}
use pico_dome.Base.Text.{str_eq}
use pico_dome.Audit.Event.{AuditEventType, auth_success, auth_failure, rate_limited}
use pico_dome.Auth.Rbac.{has_permission}
use pico_dome.Auth.Tokens.{TokenAuth, strip_prefix, validate, is_configured}
use pico_dome.Ratelimit.Limiter.{TokenBucketLimiter, allow}

-- The codes of errors.py, and `no_answer` for an exception that leaves the handler: nothing is sent then.
pub data ErrorCode : Type 0 where
  no_answer : ErrorCode
  invalid_json missing_command invalid_backend invalid_policy : ErrorCode
  unauthorized forbidden command_denied enterprise_enforcement : ErrorCode
  not_found scan_not_found policy_not_found : ErrorCode
  request_too_large too_many_requests scan_failed internal_error not_ready backend_unavailable :
      ErrorCode

-- The server with what stands around it: whether it is in enterprise mode and in development mode.
pub record Server : Type 0 where
  pub auth : TokenAuth
  pub rate_limiter : TokenBucketLimiter
  pub is_enterprise : Bool
  pub dev_mode : Bool
  -- the audit events with their actors
  pub audit : List (AuditEventType × String)

pub data Access : Type 0 where
  denied : ErrorCode → Access
  granted : String → Access

pub Access-cases :
    (a : Access) → ((e : ErrorCode) × (a ≡ denied e)) ⊎ ((t : String) × (a ≡ granted t))
Access-cases (denied e) = inl (e, refl)
Access-cases (granted t) = inr (t, refl)

abbrev pub dev_token : String
dev_token = "no-auth-dev-mode"

-- `text[:n]`
unfoldable pub first_chars : ℕ → String → String
first_chars zero s = ""
first_chars (suc n) String.[] = ""
first_chars (suc n) (String.◌∷◌ c s) = String.◌∷◌ c (first_chars n s)

module _ (hash_token : String → String) (strip : String → String) where
  -- `_get_token`, of the header `Authorization`
  unfoldable pub get_token : String → Option String
  unfolding strip_prefix
  get_token auth_header = elim (strip_prefix "Bearer " auth_header) [
    | none ↦ none
    | some t ↦ some (strip t)
  ]

  unfoldable pub actor_of : String → String
  unfolding first_chars
  actor_of token = first_chars 16 (hash_token token)

  abbrev pub emit : AuditEventType → String → Server → Server
  emit t actor s = record s { audit = s.audit ++ ((t, actor) ∷ []) }

  -- What follows once there is a token.
  unfoldable pub check_token : ℕ → String → Server → Server × Access
  unfolding validate allow actor_of
  check_token now token s =
      let actor = actor_of token in
      let (auth, valid) = validate hash_token now s.dev_mode token s.auth in
      let s1 : Server = record s { auth = auth } in
      let (limiter, allowed) = allow now actor 1000 s.rate_limiter in
      let s2 : Server = record s1 { rate_limiter = limiter } in
      elim valid [
        | none ↦ (s1, denied no_answer)
        | some false ↦ (emit auth_failure actor s1, denied unauthorized)
        | some true ↦
            if not allowed
            then (emit rate_limited actor s2, denied too_many_requests)
            else (emit auth_success actor s2, granted token)
      ]

  unfoldable pub require_auth : ℕ → String → Server → Server × Access
  unfolding get_token check_token is_configured
  require_auth now auth_header s =
      if not (is_configured s.dev_mode s.auth)
      then (if s.is_enterprise
          then (emit auth_failure "anonymous" s, denied unauthorized)
          else (s, granted dev_token))
      else elim (get_token auth_header) [
        | none ↦ (emit auth_failure "anonymous" s, denied unauthorized)
        | some token ↦
            if str_eq token ""
            then (emit auth_failure "anonymous" s, denied unauthorized)
            else check_token now token s
      ]

  unfoldable pub require_permission : ℕ → String → String → Server → Server × Access
  unfolding require_auth has_permission
  require_permission now permission auth_header s =
      let (s', access) = require_auth now auth_header s in
      elim access [
        | denied e ↦ (s', denied e)
        | granted token ↦
            if has_permission hash_token token permission s'.auth.rbac
            then (s', granted token)
            else (emit auth_failure (actor_of token) s', denied forbidden)
      ]
