-- ===== src/Admission/Tests.antt =====
-- A pod with one privileged container, and the theorems at it.
use pico_dome.Base.{some, Bool, true, false, [], ◌∷◌, ◌≡◌, ◌↔◌, refl}
use pico_dome.Admission.Validator.{
  default_validator, no_context, Container, PodSpec, privileged_container, host_pid, validate_pod,
}
use pico_dome.Admission.Conform.{IsConform, validate_pod-IsConform}
use pico_dome.Admission.Webhook.{malformed, review, request, invalid_json, do_post}

abbrev container : Bool → Container
container privileged = record {
  name = "web";
  security_context = some (record no_context { privileged = privileged; run_as_user = some 1000 });
}

abbrev pod : Bool → PodSpec
pod privileged = record {
  security_context = no_context;
  host_network = false;
  host_pid = privileged;
  host_ipc = false;
  volumes = [];
  containers = container privileged ∷ [];
  init_containers = [];
}

validate_run :
    validate_pod default_validator (some (pod true))
    ≡ (false, host_pid ∷ privileged_container "web" ∷ [])
unfolding validate_pod
validate_run = refl

-- A body that is no JSON is not allowed.
do_post_run : do_post (some (validate_pod default_validator)) "/validate" invalid_json ≡ malformed
unfolding do_post
do_post_run = refl

do_post_allowed_run :
    do_post
      (some (validate_pod default_validator))
      "/validate"
      (request (record { uid = "u"; spec = some (pod false) }))
    ≡ review "u" true []
unfolding do_post validate_pod
do_post_allowed_run = refl

validate_pod-IsConform_example :
    ((validate_pod default_validator (some (pod false))).0 ≡ true)
    ↔ IsConform default_validator (pod false)
validate_pod-IsConform_example = validate_pod-IsConform default_validator (pod false)
