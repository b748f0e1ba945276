-- ===== src/Daemon/Grants.antt =====
-- daemon/server.py: when `_require_permission` lets a request pass, and what it leaves in the audit log.
use pico_dome.Base.{
  Option, ℕ, String, none, some, Bool, true, false, [], ◌∷◌, ◌++◌, ◌≡◌, ◌⊎◌, ◌↔◌, refl, inl, inr,
  sym, ap, ◌∙◌, if◌then◌else◌, Bool-cases, Option-cases,
}
use pico_dome.Base.Text.{str_eq}
use pico_dome.Base.Dict.{lookup}
use pico_dome.Audit.Event.{AuditEventType, auth_success, auth_failure, rate_limited}
use pico_dome.Auth.Rbac.{Rbac, has_permission, get_role, role_allows, reader}
use pico_dome.Auth.Tokens.{validate, is_configured}
use pico_dome.Ratelimit.Limiter.{allow}
use pico_dome.Daemon.Access.{
  no_answer, Server, denied, granted, ErrorCode, unauthorized, forbidden, dev_token, get_token,
  actor_of, check_token, require_auth, require_permission, Access-cases,
}

granted_inj : {s t : String} → granted s ≡ granted t → s ≡ t
granted_inj e = cc

not_granted : {e : ErrorCode} {t : String} → denied e ≡ granted t → ⊥
not_granted e = cc

Answer-cases : (o : Option Bool) → (o ≡ some true) ⊎ (o ≡ some false) ⊎ (o ≡ none)
Answer-cases (some true) = inl refl
Answer-cases (some false) = inr (inl refl)
Answer-cases none = inr (inr refl)

module _ (hash_token : String → String) (strip : String → String) where
  -- A token from the header, which the authenticator takes and the limiter admits.
  abbrev pub IsAdmitted : ℕ → String → Server → String → Type 0
  IsAdmitted now auth_header s token =
      (is_configured s.dev_mode s.auth ≡ true)
      × (get_token hash_token strip auth_header ≡ some token)
      × ((validate hash_token now s.dev_mode token s.auth).1 ≡ some true)
      × ((allow now (actor_of hash_token strip token) 1000 s.rate_limiter).1 ≡ true)

  abbrev pub IsUnprotected : Server → String → Type 0
  IsUnprotected s token =
      (is_configured s.dev_mode s.auth ≡ false) × (s.is_enterprise ≡ false) × (token ≡ dev_token)

  check_token_granted :
      (now : ℕ) (token t : String) (s : Server)
      → (check_token hash_token strip now token s).1 ≡ granted t
      → (token ≡ t)
        × ((validate hash_token now s.dev_mode token s.auth).1 ≡ some true)
        × ((allow now (actor_of hash_token strip token) 1000 s.rate_limiter).1 ≡ true)
  unfolding check_token
  check_token_granted now token t s e =
      elim (Answer-cases (validate hash_token now s.dev_mode token s.auth).1) [
        | inr (inr v) ↦ absurd (not_granted (rw (check_token, v) at e))
        | inr (inl v) ↦ absurd (not_granted (rw (check_token, v) at e))
        | inl v ↦
            elim (Bool-cases (allow now (actor_of hash_token strip token) 1000 s.rate_limiter).1) [
              | inr a ↦ absurd (not_granted (rw (check_token, v, a) at e))
              | inl a ↦ (granted_inj (rw (check_token, v, a) at e), v, a)
            ]
      ]

  require_auth_granted :
      (now : ℕ) (auth_header token : String) (s : Server)
      → (require_auth hash_token strip now auth_header s).1 ≡ granted token
      → IsUnprotected s token ⊎ IsAdmitted now auth_header s token
  unfolding require_auth
  require_auth_granted now auth_header token s e =
      elim (Bool-cases (is_configured s.dev_mode s.auth)) [
        | inr c ↦ elim (Bool-cases s.is_enterprise) [
          | inl b ↦ absurd (not_granted (rw (require_auth, c, b) at e))
          | inr b ↦ inl (c, b, sym (granted_inj (rw (require_auth, c, b) at e)))
        ]
        | inl c ↦ elim (Option-cases (get_token hash_token strip auth_header)) [
          | inl g ↦ absurd (not_granted (rw (require_auth, c, g) at e))
          | inr (t, g) ↦ elim (Bool-cases (str_eq t "")) [
            | inl b ↦ absurd (not_granted (rw (require_auth, c, g, b) at e))
            | inr b ↦
                let (same, v, a) =
                  check_token_granted now t token s (rw (require_auth, c, g, b) at e) in
                inr (c, rw (← same) g, rw (← same) v, rw (← same) a)
          ]
        ]
      ]

  -- `_require_permission` lets a request pass only with a token that has the permission, and only if the
  -- token came in the header, was found valid and was within its rate, or if no token is configured, in
  -- neither development nor enterprise mode.
  pub require_permission_granted :
      (now : ℕ) (permission auth_header token : String) (s : Server)
      → let (s', access) = require_permission hash_token strip now permission auth_header s in
        access ≡ granted token
        → (has_permission hash_token token permission s'.auth.rbac ≡ true)
          × (IsUnprotected s token ⊎ IsAdmitted now auth_header s token)
  unfolding require_permission
  require_permission_granted now permission auth_header token s e =
      let (s', access) = require_auth hash_token strip now auth_header s in
      elim (Access-cases access) [
        | inl (code, a) ↦ absurd (not_granted (rw (require_permission, a) at e))
        | inr (t, a) ↦ elim (Bool-cases (has_permission hash_token t permission s'.auth.rbac)) [
          | inr b ↦ absurd (not_granted (rw (require_permission, a, b) at e))
          | inl b ↦
              let same : t ≡ token = granted_inj (rw (require_permission, a, b) at e) in
              rw (require_permission, a, b)
                (rw same at b, require_auth_granted now auth_header token s (a ∙ ap granted same))
        ]
      ]

  -- A configured or enterprise server emits one event for each request that it authenticates, which is a
  -- success just if the request passes; unless an exception leaves the handler, when it emits none.
  pub require_auth_audited :
      (now : ℕ) (auth_header : String) (s : Server)
      → (is_configured s.dev_mode s.auth ≡ true) ⊎ (s.is_enterprise ≡ true)
      → let (s', access) = require_auth hash_token strip now auth_header s in
        ((s'.audit ≡ s.audit) × (access ≡ denied no_answer))
        ⊎ ((t : AuditEventType) × (actor : String) × (s'.audit ≡ s.audit ++ ((t, actor) ∷ []))
            × ((t ≡ auth_success) ↔ ((token : String) × (access ≡ granted token))))
  unfolding require_auth check_token
  require_auth_audited now auth_header s h = elim (Bool-cases (is_configured s.dev_mode s.auth)) [
    | inr c ↦ elim h [
      | inl d ↦ absurd (both d c)
      | inr b ↦ rw (require_auth, c, b) (inr (auth_failure, "anonymous", refl, no_success))
    ]
    | inl c ↦ elim (Option-cases (get_token hash_token strip auth_header)) [
      | inl g ↦ rw (require_auth, c, g) (inr (auth_failure, "anonymous", refl, no_success))
      | inr (token, g) ↦ elim (Bool-cases (str_eq token "")) [
        | inl b ↦ rw (require_auth, c, g, b) (inr (auth_failure, "anonymous", refl, no_success))
        | inr b ↦ rw (require_auth, c, g, b) (checked token)
      ]
    ]
  ]
    where
      both : {x : Bool} → x ≡ true → x ≡ false → ⊥
      both p q = cc

      no_success :
          {code : ErrorCode}
          → (auth_failure ≡ auth_success) ↔ ((token : String) × (denied code ≡ granted token))
      no_success = (λ q. absurd (cc), λ p. absurd (not_granted p.1))

      checked :
          (token : String)
          → (((check_token hash_token strip now token s).0.audit ≡ s.audit)
              × ((check_token hash_token strip now token s).1 ≡ denied no_answer))
            ⊎ ((t : AuditEventType) × (actor : String) × ((check_token hash_token strip now token
                    s).0.audit
                  ≡ s.audit ++ ((t, actor) ∷ []))
                × ((t ≡ auth_success)
                    ↔ ((u : String) × ((check_token hash_token strip now token s).1 ≡ granted u))))
      checked token = elim (Answer-cases (validate hash_token now s.dev_mode token s.auth).1) [
        | inr (inr v) ↦ rw (check_token, v) (inl (refl, refl))
        | inr (inl v) ↦
            rw (check_token, v)
              (inr (auth_failure, actor_of hash_token strip token, refl, no_success))
        | inl v ↦
            elim (Bool-cases (allow now (actor_of hash_token strip token) 1000 s.rate_limiter).1) [
              | inr a ↦
                  rw (check_token, v, a)
                    (inr (
                      rate_limited,
                      actor_of hash_token strip token,
                      refl,
                      (λ q. absurd (cc), λ p. absurd (not_granted p.1)),
                    ))
              | inl a ↦
                  rw (check_token, v, a)
                    (inr (
                      auth_success,
                      actor_of hash_token strip token,
                      refl,
                      (λ q. (token, refl), λ p. refl),
                    ))
            ]
      ]

  require_permission_denied :
      (now : ℕ) (permission auth_header : String) (s : Server) {e : ErrorCode}
      → (require_auth hash_token strip now auth_header s).1 ≡ denied e
      → (require_permission hash_token strip now permission auth_header s).1 ≡ denied e
  unfolding require_permission
  require_permission_denied now permission auth_header s a = rw (require_permission, a) refl

  require_permission_by_role :
      (now : ℕ) (permission auth_header token : String) (s : Server) (b : Bool)
      → require_auth hash_token strip now auth_header s ≡ (s, granted token)
      → has_permission hash_token token permission s.auth.rbac ≡ b
      → (require_permission hash_token strip now permission auth_header s).1
        ≡ (if b then granted token else denied forbidden)
  unfolding require_permission
  require_permission_by_role now permission auth_header token s b a h =
      let access = ap (λ p. p.1) a in
      let held = ap (λ p. has_permission hash_token token permission p.0.auth.rbac) a ∙ h in
      elim (Bool-cases b) [
        | inl q ↦ rw (require_permission, access, held, q) refl
        | inr q ↦ rw (require_permission, access, held, q) refl
      ]

  require_auth_free :
      (now : ℕ) (auth_header : String) (s : Server)
      → is_configured s.dev_mode s.auth ≡ false
      → s.is_enterprise ≡ false
      → require_auth hash_token strip now auth_header s ≡ (s, granted dev_token)
  unfolding require_auth
  require_auth_free now auth_header s c b = rw (require_auth, c, b) refl

  require_auth_rejected :
      (now : ℕ) (auth_header : String) (s : Server)
      → is_configured s.dev_mode s.auth ≡ true
      → get_token hash_token strip auth_header ≡ none
      → (require_auth hash_token strip now auth_header s).1 ≡ denied unauthorized
  unfolding require_auth
  require_auth_rejected now auth_header s c g = rw (require_auth, c, g) refl

  get_role_default :
      (token : String) (r : Rbac)
      → lookup (hash_token token) r.role_map ≡ none
      → get_role hash_token token r ≡ reader
  unfolding get_role
  get_role_default token r e = rw (get_role, e) refl

  -- Where no token is configured, outside enterprise mode: without the development mode every request has
  -- the permissions of a reader, whatever its header; with it, a request without a token is rejected.
  pub require_permission_unconfigured :
      (now : ℕ) (permission auth_header : String) (s : Server)
      → s.is_enterprise ≡ false
      → s.auth.is_enterprise ≡ false
      → s.auth.token_hashes ≡ []
      → lookup (hash_token dev_token) s.auth.rbac.role_map ≡ none
      → let access = (require_permission hash_token strip now permission auth_header s).1 in
        (s.dev_mode ≡ false
          → access
            ≡ (if role_allows reader permission then granted dev_token else denied forbidden))
        × (s.dev_mode ≡ true
            → get_token hash_token strip auth_header ≡ none
            → access ≡ denied unauthorized)
  require_permission_unconfigured now permission auth_header s b c none_set role = (
    λ d.
        let free : is_configured s.dev_mode s.auth ≡ false =
          unfold is_configured in rw (c, d, none_set) refl in
        let reads : has_permission hash_token dev_token permission s.auth.rbac
            ≡ role_allows reader permission =
          unfold has_permission in
          ap (λ r. role_allows r permission) (get_role_default dev_token s.auth.rbac role) in
        require_permission_by_role now permission auth_header dev_token s _
          (require_auth_free now auth_header s free b) reads,
    λ d g.
        let configured : is_configured s.dev_mode s.auth ≡ true =
          unfold is_configured in rw (c, d) refl in
        require_permission_denied now permission auth_header s
          (require_auth_rejected now auth_header s configured g),
  )
