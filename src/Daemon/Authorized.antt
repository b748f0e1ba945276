-- ===== src/Daemon/Authorized.antt =====
-- daemon/server.py: which requests reach a handler.
use pico_dome.Base.{
  ℕ, String, Option, none, some, Bool, true, false, ◌≡◌, ◌⊎◌, refl, inl, inr, arith, sym, ap, ◌∙◌,
  if◌then◌else◌, Bool-cases, Option-cases, not, is_some,
}
use pico_dome.Ratelimit.Limiter.{allow}
use pico_dome.Base.Text.{str_eq, eq_iff}
use pico_dome.Daemon.Access.{Server, granted, ErrorCode, require_permission, Access-cases}
use pico_dome.Daemon.Route.{
  Endpoint, health, ready, metrics, policies, baselines, audit_log, tenants, policy, submit_scan,
  create_policy, Response, error, served, Route, limits, of_metrics, needs, unknown, get_route,
  rstrip_slash, check_length, guarded, limited, route_get, handle_get, route_post, handle_post,
}

served_inj : {e f : Endpoint} → served e ≡ served f → e ≡ f
served_inj q = cc

not_served : {c : ErrorCode} {e : Endpoint} → error c ≡ served e → ⊥
not_served q = cc

length_error :
    (content_length : Option (Option ℕ)) {r : Response} {e : Endpoint}
    → check_length content_length ≡ some r
    → r ≡ served e
    → ⊥
unfolding check_length
length_error none c q = cc
length_error (some none) c q = cc
length_error (some (some n)) c q = ground (arith, c, q)

-- The permission that each handler needs; those without one need no authentication.
abbrev pub permission_of : Endpoint → Option String
permission_of health = none
permission_of ready = none
permission_of policies = some "policy:read"
permission_of (policy _) = some "policy:read"
permission_of baselines = some "baseline:read"
permission_of audit_log = some "audit:read"
permission_of tenants = some "audit:read"
permission_of (submit_scan _) = some "scan:submit"
permission_of (create_policy _) = some "policy:write"
permission_of _ = some "scan:read"

-- A branch asks for the permission that its handler needs.
asks_rightly : Route → Bool
asks_rightly (limits actor e) = not (is_some (permission_of e))
asks_rightly of_metrics = true
asks_rightly unknown = true
asks_rightly (needs permission e) = elim (permission_of e) [
  | none ↦ false
  | some q ↦ str_eq q permission
]

get_route_lem : (path : String) → asks_rightly (get_route path) ≡ true
unfolding get_route asks_rightly
get_route_lem path = ground arith

Route-cases :
    (r : Route)
    → asks_rightly r ≡ true
    → ((actor : String) × (e : Endpoint) × (r ≡ limits actor e) × (permission_of e ≡ none))
      ⊎ (r ≡ of_metrics)
      ⊎ ((permission : String) × (e : Endpoint) × (r ≡ needs permission e)
          × (permission_of e ≡ some permission))
      ⊎ (r ≡ unknown)
unfolding asks_rightly
Route-cases (limits actor e) h = inl (actor, e, refl, ground (arith, h))
Route-cases of_metrics h = inr (inl refl)
Route-cases unknown h = inr (inr (inr refl))
Route-cases (needs permission e) h = elim (Option-cases (permission_of e)) [
  | inl n ↦ absurd (not_true (rw (asks_rightly, n) at h))
  | inr (q, n) ↦ inr (
      inr (
        inl
          (permission, e, refl, n ∙ ap some ((eq_iff q permission).0 (rw (asks_rightly, n) at h)))))
]
  where
    not_true : false ≡ true → ⊥
    not_true x = cc

module _ (hash_token : String → String) (strip : String → String) where
  -- What is known of a request that reached a handler: it had the permission, or there is none to have.
  abbrev pub IsAuthorized : Bool → ℕ → String → Server → Endpoint → Type 0
  IsAuthorized metrics_only now auth_header s e =
      (permission_of e ≡ none)
      ⊎ ((e ≡ metrics) × (metrics_only ≡ true))
      ⊎ ((permission : String) × (token : String) × (permission_of e ≡ some permission)
          × ((require_permission hash_token strip now permission auth_header s).1 ≡ granted token))

  guarded_served :
      (now : ℕ) (permission : String) (endpoint : String → Endpoint) (auth_header : String)
      (s : Server) {e : Endpoint}
      → (guarded hash_token strip now permission endpoint auth_header s).1 ≡ served e
      → (token : String) × ((require_permission hash_token strip now permission auth_header s).1
          ≡ granted token)
        × (e ≡ endpoint token)
  unfolding guarded
  guarded_served now permission endpoint auth_header s {e} q =
      elim (Access-cases (require_permission hash_token strip now permission auth_header s).1) [
        | inl (code, a) ↦ absurd (not_served (rw (guarded, a) at q))
        | inr (token, a) ↦ (token, a, sym (served_inj (rw (guarded, a) at q)))
      ]

  by_guard :
      (metrics_only : Bool) (now : ℕ) (permission : String) (endpoint : String → Endpoint)
      (auth_header : String) (s : Server) (e : Endpoint)
      → ((token : String) → permission_of (endpoint token) ≡ some permission)
      → (guarded hash_token strip now permission endpoint auth_header s).1 ≡ served e
      → IsAuthorized metrics_only now auth_header s e
  by_guard metrics_only now permission endpoint auth_header s e p q =
      let (token, a, same) = guarded_served now permission endpoint auth_header s q in
      inr (inr (permission, token, ap permission_of same ∙ p token, a))

  by_limit :
      (now : ℕ) (actor : String) (endpoint : Endpoint) (s : Server) (e : Endpoint)
      → permission_of endpoint ≡ none
      → (limited hash_token strip now actor endpoint s).1 ≡ served e
      → permission_of e ≡ none
  unfolding limited
  by_limit now actor endpoint s e p q = elim (Bool-cases (allow now actor 1000 s.rate_limiter).1) [
    | inl a ↦ ap permission_of (sym (served_inj (rw (limited, a) at q))) ∙ p
    | inr a ↦ absurd (not_served (rw (limited, a) at q))
  ]

  route_get-IsAuthorized :
      (metrics_only : Bool) (now : ℕ) (auth_header path : String) (s : Server) (e : Endpoint)
      → (route_get hash_token strip metrics_only now auth_header path s).1 ≡ served e
      → IsAuthorized metrics_only now auth_header s e
  unfolding route_get
  route_get-IsAuthorized metrics_only now auth_header path s e q =
      elim (Route-cases (get_route path) (get_route_lem path)) [
        | inl (actor, endpoint, r, p) ↦
            inl (by_limit now actor endpoint s e p (rw (route_get, r) at q))
        | inr (inl r) ↦ metrics_case (rw (route_get, r) at q)
        | inr (inr (inl (permission, endpoint, r, p))) ↦
            to permission endpoint p (rw (route_get, r) at q)
        | inr (inr (inr r)) ↦ absurd (not_served (rw (route_get, r) at q))
      ]
    where
      to :
          (permission : String) (endpoint : Endpoint)
          → permission_of endpoint ≡ some permission
          → (guarded hash_token strip now permission (λ _. endpoint) auth_header s).1 ≡ served e
          → IsAuthorized metrics_only now auth_header s e
      to permission endpoint p h =
          by_guard metrics_only now permission (λ _. endpoint) auth_header s e (λ _. p) h

      metrics_case :
          (if metrics_only
              then (s, served metrics)
              else guarded hash_token strip now "scan:read" (λ _. metrics) auth_header s).1
            ≡ served e
          → IsAuthorized metrics_only now auth_header s e
      metrics_case h = elim (Bool-cases metrics_only) [
        | inl b ↦ inr (inl (sym (served_inj (rw b at h)), b))
        | inr b ↦ to "scan:read" metrics refl (rw b at h)
      ]

  -- A GET request reaches a handler only with the permission that the handler needs; the handlers of the
  -- health and readiness checks need none, nor does the one of the metrics on a server of only these.
  pub handle_get-IsAuthorized :
      (metrics_only : Bool) (now : ℕ) (auth_header : String) (content_length : Option (Option ℕ))
      (path : String) (s : Server) (e : Endpoint)
      → (handle_get hash_token strip metrics_only now auth_header content_length path s).1
        ≡ served e
      → IsAuthorized metrics_only now auth_header s e
  unfolding handle_get
  handle_get-IsAuthorized metrics_only now auth_header content_length path s e q =
      elim (Option-cases (check_length content_length)) [
        | inl c ↦
            route_get-IsAuthorized metrics_only now auth_header (rstrip_slash path) s e
              (rw (handle_get, c) at q)
        | inr (r, c) ↦ absurd (length_error content_length c (rw (handle_get, c) at q))
      ]

  -- A POST request reaches a handler only with the permission that the handler needs.
  pub handle_post-IsAuthorized :
      (now : ℕ) (auth_header : String) (content_length : Option (Option ℕ)) (path : String)
      (s : Server) (e : Endpoint)
      → (handle_post hash_token strip now auth_header content_length path s).1 ≡ served e
      → IsAuthorized false now auth_header s e
  unfolding handle_post route_post
  handle_post-IsAuthorized now auth_header content_length path s e q =
      elim (Option-cases (check_length content_length)) [
        | inl c ↦ elim (Bool-cases (str_eq (rstrip_slash path) "/api/v1/scan")) [
          | inl b ↦
              by_guard false now "scan:submit" submit_scan auth_header s e (λ _. refl)
                (rw (handle_post, route_post, c, b) at q)
          | inr b ↦ elim (Bool-cases (str_eq (rstrip_slash path) "/api/v1/policies")) [
            | inl d ↦
                by_guard false now "policy:write" create_policy auth_header s e (λ _. refl)
                  (rw (handle_post, route_post, c, b, d) at q)
            | inr d ↦ absurd (not_served (rw (handle_post, route_post, c, b, d) at q))
          ]
        ]
        | inr (r, c) ↦ absurd (length_error content_length c (rw (handle_post, c) at q))
      ]
