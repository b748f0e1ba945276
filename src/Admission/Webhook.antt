-- ===== src/Admission/Webhook.antt =====
-- admission/__init__.py: `AdmissionHandler.do_POST`. The body is given as it was read from JSON.
use pico_dome.Base.{String, Option, none, some, Bool, true, List, [], if◌then◌else◌}
use pico_dome.Base.Text.{str_eq}
use pico_dome.Admission.Validator.{PodSpec, Violation}

pub record AdmissionRequest : Type 0 where
  pub uid : String
  pub spec : Option PodSpec

-- `malformed` is the review of a body that is no JSON, or that has no request; it is not allowed.
pub data Reply : Type 0 where
  not_found malformed : Reply
  review : String → Bool → List Violation → Reply

-- The validator of the handler, if there is one.
abbrev pub Validate : Type 0
Validate = Option (Option PodSpec → Bool × List Violation)

-- What the body is: no JSON, a review without a request, or one with it.
pub data Body : Type 0 where
  invalid_json missing_request : Body
  request : AdmissionRequest → Body

unfoldable pub do_post : Validate → String → Body → Reply
do_post validator path body =
    if str_eq path "/validate"
    then (elim body [
      | invalid_json ↦ malformed
      | missing_request ↦ malformed
      | request req ↦ elim validator [
        | none ↦ review req.uid true []
        | some validate ↦
            let (allowed, reasons) = validate req.spec in review req.uid allowed reasons
      ]
    ])
    else not_found
