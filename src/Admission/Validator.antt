-- ===== src/Admission/Validator.antt =====
-- admission/validator.py: `PodSecurityValidator`. A pod is the part of its JSON that the validator reads; a
-- flag that is missing is false, and the text of a violation is a constructor.
use pico_dome.Base.{
  ℕ, String, Option, none, some, Bool, true, false, not, ◌&&◌, List, [], ◌∷◌, ◌++◌, ◌==◌, is_empty,
  is_some, if◌then◌else◌,
}
use pico_dome.Base.Text.{contains}
use pico_dome.Base.Result.{get_or}

pub record PodSecurityValidator : Type 0 where
  pub deny_privileged : Bool
  pub deny_run_as_root : Bool
  pub require_security_context : Bool
  pub deny_host_path : Bool
  pub deny_host_network : Bool
  pub require_non_root : Bool
  pub require_read_only_root : Bool
  pub require_drop_all_caps : Bool

-- `DEFAULT_VALIDATOR`
abbrev pub default_validator : PodSecurityValidator
default_validator = record {
  deny_privileged = true;
  deny_run_as_root = true;
  require_security_context = true;
  deny_host_path = true;
  deny_host_network = true;
  require_non_root = false;
  require_read_only_root = false;
  require_drop_all_caps = false;
}

pub record SecurityContext : Type 0 where
  pub privileged : Bool
  pub run_as_user : Option ℕ
  pub run_as_non_root : Option Bool
  pub read_only_root_filesystem : Bool
  pub drop : List String

-- `{}`, which stands for a context that is missing
abbrev pub no_context : SecurityContext
no_context = record {
  privileged = false;
  run_as_user = none;
  run_as_non_root = none;
  read_only_root_filesystem = false;
  drop = [];
}

pub record Container : Type 0 where
  pub name : String
  pub security_context : Option SecurityContext

pub record Volume : Type 0 where
  pub name : String
  pub host_path : Bool

pub record PodSpec : Type 0 where
  pub security_context : SecurityContext
  pub host_network : Bool
  pub host_pid : Bool
  pub host_ipc : Bool
  pub volumes : List Volume
  pub containers : List Container
  pub init_containers : List Container

pub data Violation : Type 0 where
  host_network host_pid host_ipc pod_not_non_root : Violation
  host_path missing_context privileged_container runs_as_root not_non_root writable_root
        keeps_caps :
      String → Violation

-- A sequence of `if condition: violations.append(...)`
unfoldable pub found : List (Bool × Violation) → List Violation
found [] = []
found ((condition, v) ∷ rest) = if condition then v ∷ found rest else found rest

abbrev pub either : {A : Type 0} → Option A → Option A → Option A
either (some a) b = some a
either none b = b

-- The user and the flag of a container, or else of its pod.
abbrev pub user_of : PodSpec → SecurityContext → Option ℕ
user_of pod c = either c.run_as_user pod.security_context.run_as_user

abbrev pub non_root_of : PodSpec → SecurityContext → Bool
non_root_of pod c = get_or c.run_as_non_root (get_or pod.security_context.run_as_non_root false)

abbrev pub is_root : Option ℕ → Bool
is_root none = false
is_root (some n) = n == 0

module _ (v : PodSecurityValidator) where
  unfoldable pub volume_violations : List Volume → List Violation
  unfolding found
  volume_violations [] = []
  volume_violations (x ∷ xs) =
      let rest = volume_violations xs in
      if v.deny_host_path && x.host_path then host_path x.name ∷ rest else rest

  abbrev pub host_checks : PodSpec → List (Bool × Violation)
  host_checks pod =
      (v.deny_host_network && pod.host_network, host_network)
      ∷ (v.deny_host_network && pod.host_pid, host_pid)
      ∷ (v.deny_host_network && pod.host_ipc, host_ipc)
      ∷ []

  abbrev pub pod_checks : PodSpec → List (Bool × Violation)
  pod_checks pod =
      (
        v.require_non_root && not (get_or pod.security_context.run_as_non_root false),
        pod_not_non_root,
      )
      ∷ []

  unfoldable pub container_checks : PodSpec → Container → List (Bool × Violation)
  unfolding contains
  container_checks pod c =
      let sec = get_or c.security_context no_context in
      (v.require_security_context && not (is_some c.security_context), missing_context c.name)
      ∷ (v.deny_privileged && sec.privileged, privileged_container c.name)
      ∷ (v.deny_run_as_root && is_root (user_of pod sec), runs_as_root c.name)
      ∷ (v.require_non_root && not (non_root_of pod sec), not_non_root c.name)
      ∷ (v.require_read_only_root && not sec.read_only_root_filesystem, writable_root c.name)
      ∷ (v.require_drop_all_caps && not (contains sec.drop "ALL"), keeps_caps c.name)
      ∷ []

  unfoldable pub containers_violations : PodSpec → List Container → List Violation
  unfolding container_checks found
  containers_violations pod [] = []
  containers_violations pod (c ∷ cs) =
      found (container_checks pod c) ++ containers_violations pod cs

  -- `validate`, of the pod's spec, if there is one, with the reasons.
  unfoldable pub validate_pod : Option PodSpec → Bool × List Violation
  unfolding volume_violations containers_violations found
  validate_pod none = (true, [])
  validate_pod (some pod) =
      let violations =
        found (host_checks pod)
        ++ (volume_violations pod.volumes
            ++ (found (pod_checks pod)
                ++ containers_violations pod (pod.containers ++ pod.init_containers))) in
      (is_empty violations, violations)
