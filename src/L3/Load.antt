-- ===== src/L3/Load.antt =====
-- l3/policy.py: what `load_policy` gives for each name.
use mathlib.Core.Path.{subst}
use pico_dome.Base.{
  String, Option, none, some, true, [], ◌≡◌, ◌≢◌, refl, inl, inr, arith, if◌then◌else◌, Bool-cases,
}
use pico_dome.Base.Text.{str_eq, eq_iff}
use pico_dome.Base.Dict.{lookup}
use pico_dome.L3.Models.{value_error, Result, ok, err, deny, Policy, PolicyData}
use pico_dome.L3.Policy.{
  named_policies, default_policy, escapes, load_path, load_policy, validate_policy,
}

module _ (read_file : String → Result PolicyData) (path : Option String) where
  -- A policy that denies by default, fails closed and has no validation error.
  abbrev pub IsStrict : Result Policy → Type 0
  IsStrict r =
      (p : Policy) × (r ≡ ok p)
      × (p.default_action ≡ deny)
      × (p.fail_closed ≡ true)
      × (validate_policy p ≡ [])

  -- Each named policy loads, whatever the path; it denies by default, fails closed, and has no
  -- validation error.
  pub load_policy_named :
      (name : String)
      → lookup name named_policies ≢ none
      → IsStrict (load_policy read_file path (some name))
  unfolding load_policy lookup validate_policy
  load_policy_named name known = elim (Bool-cases (str_eq "default" name)) [
    | inl q ↦ named "default" name q (_, refl, refl, refl, refl)
    | inr a ↦ elim (Bool-cases (str_eq "strict" name)) [
      | inl q ↦ named "strict" name q (_, refl, refl, refl, refl)
      | inr b ↦ elim (Bool-cases (str_eq "node" name)) [
        | inl q ↦ named "node" name q (_, refl, refl, refl, refl)
        | inr c ↦ elim (Bool-cases (str_eq "python" name)) [
          | inl q ↦ named "python" name q (_, refl, refl, refl, refl)
          | inr d ↦ absurd (known (ground arith))
        ]
      ]
    ]
  ]
    where
      named :
          (s t : String)
          → str_eq s t ≡ true
          → IsStrict (load_policy read_file path (some s))
          → IsStrict (load_policy read_file path (some t))
      named s t q h =
          subst (λ x. IsStrict (load_policy read_file path (some x))) ((eq_iff s t).0 q) h

-- Without a path, a name that is not one of the named policies' is refused if it could leave the
-- directory, and otherwise loads what the name "default" loads.
pub load_policy_unnamed :
    (read_file : String → Result PolicyData) (name : String)
    → lookup name named_policies ≡ none
    → load_policy read_file none (some name)
      ≡ (if escapes name then err value_error else load_policy read_file none (some "default"))
unfolding load_policy load_path lookup default_policy
load_policy_unnamed read_file name unknown = ground arith
