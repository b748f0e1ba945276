-- ===== src/L3/Validate.antt =====
-- l3/policy.py: what `validate_policy` accepts, and that exported policies can be imported.
use mathlib.Core.List.{append-nil}
use pico_dome.Base.{
  String, Option, none, some, true, false, List, [], ◌∷◌, ◌++◌, map, is_empty, All, ◌≡◌, ◌≢◌, ◌↔◌,
  refl, inl, inr, arith, if◌then◌else◌, Bool-cases,
}
use pico_dome.Base.Text.{eq_iff, contains}
use pico_dome.L3.Models.{
  Error, value_error, ok, err, Result-cases, SyscallAction, allow, RuleTarget, file_read,
  all_actions, all_targets, action_value, target_value, PolicyRule, Policy, PolicyData,
  policy_from_dict, policy_from_dict-policy_to_dict,
}
use pico_dome.L3.Policy.{
  PolicyError, duplicate_ids, bad_targets, bad_actions, bad_default, validate_policy, export_policy,
  import_policy,
}

-- No two rules have one id.
abbrev pub DistinctIds : List PolicyRule → Type 0
DistinctIds [] = Unit
DistinctIds (r ∷ rules) = All (λ s. r.rule_id ≢ s.rule_id) rules × DistinctIds rules

abbrev AllUnseen : List String → List PolicyRule → Type 0
AllUnseen seen rules = All (λ r. contains seen r.rule_id ≡ false) rules

AllUnseen-cons :
    (i : String) (seen : List String) (rules : List PolicyRule)
    → AllUnseen (i ∷ seen) rules ↔ (All (λ s. i ≢ s.rule_id) rules × AllUnseen seen rules)
unfolding contains
AllUnseen-cons i seen [] = (λ h. (tt, tt), λ h. tt)
AllUnseen-cons i seen (r ∷ rules) =
    let (to, from) = AllUnseen-cons i seen rules in
    (
      λ h. let (a, b) = to h.1 in ((first h.0, a), (second h.0, b)),
      λ h. (unseen h.0.0 h.1.0, from (h.0.1, h.1.1)),
    )
  where
    first : contains (i ∷ seen) r.rule_id ≡ false → i ≢ r.rule_id
    first c = ground (arith, eq_iff i r.rule_id)

    second : contains (i ∷ seen) r.rule_id ≡ false → contains seen r.rule_id ≡ false
    second c = ground arith

    unseen : i ≢ r.rule_id → contains seen r.rule_id ≡ false → contains (i ∷ seen) r.rule_id ≡ false
    unseen ne c = ground (arith, eq_iff i r.rule_id)

duplicate_ids_iff :
    (seen : List String) (rules : List PolicyRule)
    → (duplicate_ids seen rules ≡ []) ↔ (AllUnseen seen rules × DistinctIds rules)
unfolding duplicate_ids
duplicate_ids_iff seen [] = (λ h. (tt, tt), λ h. refl)
duplicate_ids_iff seen (r ∷ rules) = elim (Bool-cases (contains seen r.rule_id)) [
  | inl c ↦ (λ h. absurd (reported c h), λ h. ground arith)
  | inr c ↦
      let (to, from) = duplicate_ids_iff (r.rule_id ∷ seen) rules in
      let (split, join) = AllUnseen-cons r.rule_id seen rules in
      rw c (
        λ h.
            let (unseen, distinct) = to h in
            let (apart, old) = split unseen in ((refl, old), (apart, distinct)),
        λ h. from (join (h.1.0, h.0.1), h.1.1),
      )
]
  where
    reported : contains seen r.rule_id ≡ true → duplicate_ids seen (r ∷ rules) ≡ [] → ⊥
    reported c h = ground arith

bad_targets_none : (rules : List PolicyRule) → bad_targets rules ≡ []
unfolding bad_targets
bad_targets_none [] = refl
bad_targets_none (r ∷ rules) = rw (known r.target, bad_targets_none rules)
  where
    known : (t : RuleTarget) → contains (map target_value all_targets) (target_value t) ≡ true
    known file_read = refl
    known _ = refl

action_known : (a : SyscallAction) → contains (map action_value all_actions) (action_value a) ≡ true
unfolding contains action_value
action_known allow = refl
action_known _ = refl

bad_actions_none : (rules : List PolicyRule) → bad_actions rules ≡ []
unfolding bad_actions
bad_actions_none [] = refl
bad_actions_none (r ∷ rules) = rw (action_known r.action, bad_actions_none rules)

bad_default_none : (a : SyscallAction) → bad_default a ≡ []
unfolding bad_default
bad_default_none a = rw (action_known a)

AllUnseen-nil : (rules : List PolicyRule) → AllUnseen [] rules
unfolding contains
AllUnseen-nil [] = tt
AllUnseen-nil (r ∷ rules) = (refl, AllUnseen-nil rules)

-- The tests on the values of the enumerations never fail.
validate_policy_lem :
    (p : Policy)
    → validate_policy p
      ≡ (if is_empty p.rules then PolicyError.no_rules ∷ [] else []) ++ duplicate_ids [] p.rules
unfolding validate_policy
validate_policy_lem p =
    rw (bad_targets_none p.rules, bad_actions_none p.rules, bad_default_none p.default_action)
      (simp append-nil)

-- A policy has no validation error exactly if it has a rule and no two rules have one id.
pub validate_policy_iff :
    (p : Policy) → (validate_policy p ≡ []) ↔ ((is_empty p.rules ≡ false) × DistinctIds p.rules)
validate_policy_iff p =
    let (to, from) = duplicate_ids_iff [] p.rules in
    rw (validate_policy_lem p) (elim (Bool-cases (is_empty p.rules)) [
      | inl e ↦ (λ h. absurd (some_error e h), λ h. ground arith)
      | inr e ↦ rw e (λ h. (refl, (to h).1), λ h. from (AllUnseen-nil p.rules, h.1))
    ])
  where
    some_error :
        is_empty p.rules ≡ true
        → (if is_empty p.rules then PolicyError.no_rules ∷ [] else []) ++ duplicate_ids [] p.rules
          ≡ []
        → ⊥
    some_error e h = ground arith

is_empty_iff : (es : List PolicyError) → (is_empty es ≡ true) ↔ (es ≡ [])
is_empty_iff [] = (λ _. refl, λ _. refl)
is_empty_iff (e ∷ es) = (λ h. cc, λ h. cc)

-- An exported policy can be imported again, and is then the same policy, exactly if it has a rule
-- and no two rules have one id.
pub import_policy-export_policy :
    (p : Policy)
    → (import_policy (some (export_policy p)) ≡ ok p)
      ↔ ((is_empty p.rules ≡ false) × DistinctIds p.rules)
unfolding import_policy export_policy
import_policy-export_policy p =
    let (to, from) = validate_policy_iff p in
    let (empty, back) = is_empty_iff (validate_policy p) in
    rw (policy_from_dict-policy_to_dict p) (λ h. to (empty (accepted h)), λ h. rw (back (from h)))
  where
    accepted :
        (if is_empty (validate_policy p) then ok p else err value_error) ≡ ok p
        → is_empty (validate_policy p) ≡ true
    accepted h = ground arith

-- Whatever a file holds, a policy that is imported has a rule and no two rules have one id.
pub import_policy_valid :
    (o : Option PolicyData) (p : Policy)
    → import_policy o ≡ ok p
    → (is_empty p.rules ≡ false) × DistinctIds p.rules
unfolding import_policy
import_policy_valid none p h = cc
import_policy_valid (some d) p h = elim (Result-cases (policy_from_dict d)) [
  | inr (e, q) ↦ absurd (failed e q)
  | inl (r, q) ↦
      let (same, none_wrong) = imported r q in
      (validate_policy_iff p).0 ((is_empty_iff (validate_policy p)).0 (rw same at none_wrong))
]
  where
    failed : (e : Error) → policy_from_dict d ≡ err e → ⊥
    failed e q = ground arith

    imported :
        (r : Policy) → policy_from_dict d ≡ ok r → (r ≡ p) × (is_empty (validate_policy r) ≡ true)
    imported r q = ground arith
