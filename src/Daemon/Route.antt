-- ===== src/Daemon/Route.antt =====
-- daemon/server.py: `_handle_get` and `_handle_post`. What a handler does is not part of it: a request that
-- reaches a handler is served by it. The path is what `urlparse` gives.
use Prim.Native.Char.{code}
use pico_dome.Base.{ℕ, String, Option, none, some, Bool, ◌&&◌, ltb, ◌==◌, is_some, if◌then◌else◌}
use pico_dome.Base.Text.{str_eq}
use pico_dome.Auth.Tokens.{strip_prefix}
use pico_dome.Ratelimit.Limiter.{allow}
use pico_dome.Daemon.Access.{
  Server, denied, granted, ErrorCode, not_found, too_many_requests, request_too_large,
  require_permission,
}

abbrev pub max_request_size : ℕ
max_request_size = 10485760

pub data Endpoint : Type 0 where
  health ready metrics scans policies baselines audit_log tenants tls_config stats : Endpoint
  scan policy : String → Endpoint
  submit_scan create_policy : String → Endpoint

-- `served` is a call of the handler.
pub data Response : Type 0 where
  error : ErrorCode → Response
  bad_content_length : Response
  served : Endpoint → Response

-- `path.rstrip("/")`
unfoldable pub rstrip_slash : String → String
rstrip_slash String.[] = ""
rstrip_slash (String.◌∷◌ c s) =
    let rest = rstrip_slash s in
    if (code c == b'/') && str_eq rest "" then "" else String.◌∷◌ c rest

-- What follows the last slash, if there is one.
unfoldable pub after_slash : String → Option String
after_slash String.[] = none
after_slash (String.◌∷◌ c s) = elim (after_slash s) [
  | some rest ↦ some rest
  | none ↦ if code c == b'/' then some s else none
]

-- `path.split("/")[-1]`, which is also `os.path.basename`.
unfoldable pub last_segment : String → String
unfolding after_slash
last_segment s = elim (after_slash s) [ none ↦ s | some rest ↦ rest ]

-- The header `Content-Length`: it may be missing, or no number. A negative number counts as zero.
unfoldable pub check_length : Option (Option ℕ) → Option Response
check_length none = none
check_length (some none) = some bad_content_length
check_length (some (some n)) =
    if ltb max_request_size n then some (error request_too_large) else none

abbrev pub has_prefix : String → String → Bool
has_prefix p s = is_some (strip_prefix p s)

-- What a branch of `_handle_get` does before its handler is called.
pub data Route : Type 0 where
  limits : String → Endpoint → Route
  of_metrics unknown : Route
  needs : String → Endpoint → Route

-- The branches on the path.
unfoldable pub get_route : String → Route
unfolding last_segment strip_prefix
get_route path =
    if str_eq path "/health"
    then limits "__health__" health
    else if str_eq path "/ready"
    then limits "__ready__" ready
    else if str_eq path "/metrics"
    then of_metrics
    else if str_eq path "/api/v1/scans"
    then needs "scan:read" scans
    else if has_prefix "/api/v1/scan/" path
    then needs "scan:read" (scan (last_segment path))
    else if str_eq path "/api/v1/policies"
    then needs "policy:read" policies
    else if has_prefix "/api/v1/policies/" path
    then needs "policy:read" (policy (last_segment path))
    else if str_eq path "/api/v1/baselines"
    then needs "baseline:read" baselines
    else if str_eq path "/api/v1/audit"
    then needs "audit:read" audit_log
    else if str_eq path "/api/v1/tenants"
    then needs "audit:read" tenants
    else if str_eq path "/api/v1/tls/config"
    then needs "scan:read" tls_config
    else if str_eq path "/api/v1/stats"
    then needs "scan:read" stats
    else unknown

module _ (hash_token : String → String) (strip : String → String) where
  -- A handler that needs a permission; it is given the token.
  unfoldable pub guarded : ℕ → String → (String → Endpoint) → String → Server → Server × Response
  unfolding require_permission
  guarded now permission endpoint auth_header s =
      let (s', access) = require_permission hash_token strip now permission auth_header s in
      elim access [ denied e ↦ (s', error e) | granted token ↦ (s', served (endpoint token)) ]

  -- A handler without authentication, which is limited in its rate.
  unfoldable pub limited : ℕ → String → Endpoint → Server → Server × Response
  unfolding allow
  limited now actor endpoint s =
      let (limiter, allowed) = allow now actor 1000 s.rate_limiter in
      let s' : Server = record s { rate_limiter = limiter } in
      if allowed then (s', served endpoint) else (s', error too_many_requests)

  unfoldable pub route_get : Bool → ℕ → String → String → Server → Server × Response
  unfolding get_route guarded limited
  route_get metrics_only now auth_header path s = elim (get_route path) [
    | limits actor endpoint ↦ limited now actor endpoint s
    | of_metrics ↦
        if metrics_only
        then (s, served metrics)
        else guarded now "scan:read" (λ _. metrics) auth_header s
    | needs permission endpoint ↦ guarded now permission (λ _. endpoint) auth_header s
    | unknown ↦ (s, error not_found)
  ]

  unfoldable pub handle_get :
      Bool → ℕ → String → Option (Option ℕ) → String → Server → Server × Response
  unfolding check_length route_get rstrip_slash
  handle_get metrics_only now auth_header content_length path s =
      elim (check_length content_length) [
        | some r ↦ (s, r)
        | none ↦ route_get metrics_only now auth_header (rstrip_slash path) s
      ]

  unfoldable pub route_post : ℕ → String → String → Server → Server × Response
  unfolding guarded
  route_post now auth_header path s =
      if str_eq path "/api/v1/scan"
      then guarded now "scan:submit" submit_scan auth_header s
      else if str_eq path "/api/v1/policies"
      then guarded now "policy:write" create_policy auth_header s
      else (s, error not_found)

  unfoldable pub handle_post : ℕ → String → Option (Option ℕ) → String → Server → Server × Response
  unfolding check_length route_post rstrip_slash
  handle_post now auth_header content_length path s = elim (check_length content_length) [
    | some r ↦ (s, r)
    | none ↦ route_post now auth_header (rstrip_slash path) s
  ]
