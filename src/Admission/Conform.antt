-- ===== src/Admission/Conform.antt =====
-- admission/validator.py: which pods `validate` allows.
use pico_dome.Base.{
  some, Bool, true, false, not, ◌&&◌, List, [], ◌∷◌, ◌++◌, is_empty, is_some, All, ◌≡◌, ◌↔◌, refl,
  inl, inr, arith, Bool-cases,
}
use pico_dome.Base.Text.{contains}
use pico_dome.Base.Result.{get_or}
use pico_dome.Admission.Validator.{
  PodSecurityValidator, no_context, Container, Volume, PodSpec, Violation, found, user_of,
  non_root_of, is_root, volume_violations, host_checks, pod_checks, container_checks,
  containers_violations, validate_pod,
}

cons_nil : {x : Violation} {xs : List Violation} → x ∷ xs ≡ [] → ⊥
cons_nil e = cc

barred : (a b : Bool) → a && b ≡ true → (a ≡ true → b ≡ false) → ⊥
barred a b e h = ground (arith, e, h)

is_empty_iff : (xs : List Violation) → (is_empty xs ≡ true) ↔ (xs ≡ [])
is_empty_iff [] = (λ e. refl, λ e. refl)
is_empty_iff (x ∷ xs) = (λ e. absurd (cc), λ e. absurd (cons_nil e))

append_nil_iff : (xs ys : List Violation) → (xs ++ ys ≡ []) ↔ ((xs ≡ []) × (ys ≡ []))
append_nil_iff [] ys = (λ e. (refl, e), λ p. p.1)
append_nil_iff (x ∷ xs) ys = (λ e. absurd (cc), λ p. absurd (cons_nil p.0))

found_nil_iff : (cs : List (Bool × Violation)) → (found cs ≡ []) ↔ All (λ c. c.0 ≡ false) cs
unfolding found
found_nil_iff [] = (λ e. tt, λ e. refl)
found_nil_iff ((b, v) ∷ cs) = elim (Bool-cases b) [
  | inl q ↦ (λ e. absurd (cons_nil (rw (found, q) at e)), λ h. absurd (both q h.0))
  | inr q ↦ (
    λ e. (q, (found_nil_iff cs).0 (rw (found, q) at e)),
    λ h. rw (found, q) ((found_nil_iff cs).1 h.1),
  )
]
  where
    both : b ≡ true → b ≡ false → ⊥
    both p q = cc

bar_iff : (a b : Bool) → (a && b ≡ false) ↔ (a ≡ true → b ≡ false)
bar_iff a b = ground arith

need_iff : (a b : Bool) → (a && not b ≡ false) ↔ (a ≡ true → b ≡ true)
need_iff a b = ground arith

module _ (v : PodSecurityValidator) where
  -- A container meets each of the demands that are set.
  abbrev pub IsConformContainer : PodSpec → Container → Type 0
  IsConformContainer pod c =
      let sec = get_or c.security_context no_context in
      (v.require_security_context ≡ true → is_some c.security_context ≡ true)
      × (v.deny_privileged ≡ true → sec.privileged ≡ false)
      × (v.deny_run_as_root ≡ true → is_root (user_of pod sec) ≡ false)
      × (v.require_non_root ≡ true → non_root_of pod sec ≡ true)
      × (v.require_read_only_root ≡ true → sec.read_only_root_filesystem ≡ true)
      × (v.require_drop_all_caps ≡ true → contains sec.drop "ALL" ≡ true)

  -- A pod shares nothing with its host and mounts none of its paths, where that is denied, is not root, where
  -- that is asked for, and each of its containers conforms.
  abbrev pub IsConform : PodSpec → Type 0
  IsConform pod =
      (v.deny_host_network ≡ true
        → (pod.host_network ≡ false) × (pod.host_pid ≡ false) × (pod.host_ipc ≡ false))
      × (v.deny_host_path ≡ true → All (λ x. x.host_path ≡ false) pod.volumes)
      × (v.require_non_root ≡ true → get_or pod.security_context.run_as_non_root false ≡ true)
      × All (IsConformContainer pod) (pod.containers ++ pod.init_containers)

  container_iff :
      (pod : PodSpec) (c : Container)
      → (found (container_checks v pod c) ≡ []) ↔ IsConformContainer pod c
  unfolding container_checks
  container_iff pod c =
      let sec = get_or c.security_context no_context in
      let (to, from) = found_nil_iff (container_checks v pod c) in
      (
        λ e.
            let h = to e in
            (
              (need_iff v.require_security_context (is_some c.security_context)).0 h.0,
              (bar_iff v.deny_privileged sec.privileged).0 h.1.0,
              (bar_iff v.deny_run_as_root (is_root (user_of pod sec))).0 h.1.1.0,
              (need_iff v.require_non_root (non_root_of pod sec)).0 h.1.1.1.0,
              (need_iff v.require_read_only_root sec.read_only_root_filesystem).0 h.1.1.1.1.0,
              (need_iff v.require_drop_all_caps (contains sec.drop "ALL")).0 h.1.1.1.1.1.0,
            ),
        λ k. from (
          (need_iff v.require_security_context (is_some c.security_context)).1 k.0,
          (
            (bar_iff v.deny_privileged sec.privileged).1 k.1,
            (
              (bar_iff v.deny_run_as_root (is_root (user_of pod sec))).1 k.2,
              (
                (need_iff v.require_non_root (non_root_of pod sec)).1 k.3,
                (
                  (need_iff v.require_read_only_root sec.read_only_root_filesystem).1 k.4,
                  ((need_iff v.require_drop_all_caps (contains sec.drop "ALL")).1 k.5, tt),
                ),
              ),
            ),
          ),
        ),
      )

  containers_iff :
      (pod : PodSpec) (cs : List Container)
      → (containers_violations v pod cs ≡ []) ↔ All (IsConformContainer pod) cs
  unfolding containers_violations
  containers_iff pod [] = (λ e. tt, λ h. refl)
  containers_iff pod (c ∷ cs) =
      let (split, join) =
        append_nil_iff (found (container_checks v pod c)) (containers_violations v pod cs) in
      (
        λ e. let p = split e in ((container_iff pod c).0 p.0, (containers_iff pod cs).0 p.1),
        λ h. join ((container_iff pod c).1 h.0, (containers_iff pod cs).1 h.1),
      )

  volumes_iff :
      (xs : List Volume)
      → (volume_violations v xs ≡ [])
        ↔ (v.deny_host_path ≡ true → All (λ x. x.host_path ≡ false) xs)
  unfolding volume_violations
  volumes_iff [] = (λ e d. tt, λ h. refl)
  volumes_iff (x ∷ xs) = elim (Bool-cases (v.deny_host_path && x.host_path)) [
    | inl b ↦ rw b (
      λ e. absurd (cons_nil e),
      λ h. absurd (barred v.deny_host_path x.host_path b (λ d. (h d).0)),
    )
    | inr b ↦
        let (to, from) = volumes_iff xs in
        rw b
          (λ e d. ((bar_iff v.deny_host_path x.host_path).0 b d, to e d), λ h. from (λ d. (h d).1))
  ]

  host_iff :
      (pod : PodSpec)
      → (found (host_checks v pod) ≡ []) ↔ (
          v.deny_host_network ≡ true
          → (pod.host_network ≡ false) × (pod.host_pid ≡ false) × (pod.host_ipc ≡ false))
  host_iff pod =
      let (to, from) = found_nil_iff (host_checks v pod) in
      (
        λ e d.
            let h = to e in
            (
              (bar_iff v.deny_host_network pod.host_network).0 h.0 d,
              (bar_iff v.deny_host_network pod.host_pid).0 h.1.0 d,
              (bar_iff v.deny_host_network pod.host_ipc).0 h.1.1.0 d,
            ),
        λ k. from (
          (bar_iff v.deny_host_network pod.host_network).1 (λ d. (k d).0),
          (
            (bar_iff v.deny_host_network pod.host_pid).1 (λ d. (k d).1),
            ((bar_iff v.deny_host_network pod.host_ipc).1 (λ d. (k d).2), tt),
          ),
        ),
      )

  non_root_iff :
      (pod : PodSpec)
      → (found (pod_checks v pod) ≡ [])
        ↔ (v.require_non_root ≡ true → get_or pod.security_context.run_as_non_root false ≡ true)
  non_root_iff pod =
      let flag = get_or pod.security_context.run_as_non_root false in
      let (to, from) = found_nil_iff (pod_checks v pod) in
      (
        λ e. (need_iff v.require_non_root flag).0 (to e).0,
        λ k. from ((need_iff v.require_non_root flag).1 k, tt),
      )

  -- A pod is allowed just if it conforms.
  pub validate_pod-IsConform :
      (pod : PodSpec) → ((validate_pod v (some pod)).0 ≡ true) ↔ IsConform pod
  unfolding validate_pod
  validate_pod-IsConform pod =
      let cs = containers_violations v pod (pod.containers ++ pod.init_containers) in
      let ps = found (pod_checks v pod) in
      let vs = volume_violations v pod.volumes in
      let hs = found (host_checks v pod) in
      (
        λ e.
            let all =
              (append_nil_iff hs (vs ++ (ps ++ cs))).0
                ((is_empty_iff (hs ++ (vs ++ (ps ++ cs)))).0 e) in
            let rest = (append_nil_iff vs (ps ++ cs)).0 all.1 in
            let last = (append_nil_iff ps cs).0 rest.1 in
            (
              (host_iff pod).0 all.0,
              (volumes_iff pod.volumes).0 rest.0,
              (non_root_iff pod).0 last.0,
              (containers_iff pod (pod.containers ++ pod.init_containers)).0 last.1,
            ),
        λ k.
            let last = (append_nil_iff ps cs).1 (
              (non_root_iff pod).1 k.2,
              (containers_iff pod (pod.containers ++ pod.init_containers)).1 k.3,
            ) in
            let rest = (append_nil_iff vs (ps ++ cs)).1 ((volumes_iff pod.volumes).1 k.1, last) in
            (is_empty_iff (hs ++ (vs ++ (ps ++ cs)))).1
              ((append_nil_iff hs (vs ++ (ps ++ cs))).1 ((host_iff pod).1 k.0, rest)),
      )
