-- ===== src/L3/Engine/Choice.antt =====
-- l3/engine.py: which backend `_detect_backend` chooses.
use pico_dome.Base.{String, Option, none, some, Bool, true, false, ◌≡◌, ◌≢◌, ◌⊎◌, arith}
use pico_dome.Base.Text.{eq_iff}
use pico_dome.Base.Result.{get_or}
use pico_dome.L3.Run.{SandboxBackend}
use pico_dome.L3.Engine.{
  Host, EngineError, done, raised, seccomp_available, seatbelt_available, requested_backend,
  auto_backend, degraded_allowed, detect_backend,
}

-- The backend is one of the kernel's, and its check succeeds.
abbrev pub IsEnforced : Host → SandboxBackend → Type 0
IsEnforced h b =
    ((seccomp_available h ≡ true) × (b ≡ h.seccomp_backend))
    ⊎ ((seatbelt_available h ≡ true) × (b ≡ h.seatbelt_backend))

-- No weaker backend stands in for the one that is asked for.
abbrev pub IsAsFor : Host → String → SandboxBackend → Type 0
IsAsFor h name b =
    ((name ≡ "seccomp-bpf") × (seccomp_available h ≡ true) × (b ≡ h.seccomp_backend))
    ⊎ ((name ≡ "seatbelt") × (seatbelt_available h ≡ true) × (b ≡ h.seatbelt_backend))
    ⊎ ((name ≡ "subprocess") × (b ≡ h.subprocess_backend))

module _ (h : Host) (b : SandboxBackend) where
  requested_backend-IsAsFor :
      (name : String) → requested_backend name false h ≡ done b → IsAsFor h name b
  unfolding requested_backend
  requested_backend-IsAsFor name q =
      ground (arith, eq_iff name "seccomp-bpf", eq_iff name "seatbelt", eq_iff name "subprocess")

  auto_backend-IsEnforced : auto_backend false h ≡ done b → IsEnforced h b
  unfolding auto_backend
  auto_backend-IsEnforced q = ground arith

-- Why a choice fails.
abbrev pub IsMissing : Host → Bool → Option String → Type 0
IsMissing h allow none =
    (allow ≡ false) × (seccomp_available h ≡ false) × (seatbelt_available h ≡ false)
IsMissing h allow (some name) =
    ((name ≡ "seccomp-bpf") × (allow ≡ false) × (seccomp_available h ≡ false))
    ⊎ ((name ≡ "seatbelt") × (allow ≡ false) × (seatbelt_available h ≡ false))
    ⊎ ((name ≢ "seccomp-bpf") × (name ≢ "seatbelt") × (name ≢ "subprocess"))

module _ (h : Host) (allow : Bool) (e : EngineError) where
  requested_backend-IsMissing :
      (name : String) → requested_backend name allow h ≡ raised e → IsMissing h allow (some name)
  unfolding requested_backend
  requested_backend-IsMissing name q =
      ground (arith, eq_iff name "seccomp-bpf", eq_iff name "seatbelt", eq_iff name "subprocess")

  auto_backend-IsMissing : auto_backend allow h ≡ raised e → IsMissing h allow none
  unfolding auto_backend
  auto_backend-IsMissing q = ground arith

module _ (lower strip : String → String) (h : Host) (allow_degraded : Option Bool) where
  abbrev pub name_asked : Option String → Option String
  name_asked none = none
  name_asked (some name) = some (strip (lower name))

  abbrev pub allowed : Bool
  allowed = get_or allow_degraded (degraded_allowed lower strip h)

  detect_backend-IsMissing :
      (requested : Option String) (e : EngineError)
      → detect_backend lower strip h requested allow_degraded ≡ raised e
      → IsMissing h allowed (name_asked requested)
  unfolding detect_backend
  detect_backend-IsMissing none e q = auto_backend-IsMissing h allowed e q
  detect_backend-IsMissing (some name) e q =
      requested_backend-IsMissing h allowed e (strip (lower name)) q

  -- Where degrading is not allowed, a choice that succeeds is the backend that was asked for, or, if none was, one
  -- of the kernel's whose check succeeds. A choice fails only for a name that is not known, or where degrading is
  -- not allowed and the check of what was asked for, or without a name of both kernel backends, does not succeed.
  pub detect_backend_lem :
      ((b : SandboxBackend)
        → allowed ≡ false
        → detect_backend lower strip h none allow_degraded ≡ done b
        → IsEnforced h b)
      × ((name : String) (b : SandboxBackend)
          → allowed ≡ false
          → detect_backend lower strip h (some name) allow_degraded ≡ done b
          → IsAsFor h (strip (lower name)) b)
      × ((requested : Option String) (e : EngineError)
          → detect_backend lower strip h requested allow_degraded ≡ raised e
          → IsMissing h allowed (name_asked requested))
  unfolding detect_backend
  detect_backend_lem = (
    λ b a q. auto_backend-IsEnforced h b (rw a at q),
    λ name b a q. requested_backend-IsAsFor h b (strip (lower name)) (rw a at q),
    detect_backend-IsMissing,
  )
