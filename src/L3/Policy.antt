-- ===== src/L3/Policy.antt =====
-- l3/policy.py: loading, exporting, importing and validating policies. Reading and writing a file is
-- an argument: what the path gives, after `json.load` and, where it is asked for, after the check
-- of the signature.
use Prim.Native.Char.{code}
use Prim.Native.String.{◌++◌ as str_append}
use pico_dome.Base.{
  String, Option, none, some, Bool, true, false, ◌&&◌, ◌||◌, List, [], ◌∷◌, ◌++◌, map, ◌==◌,
  is_empty, if◌then◌else◌,
}
use pico_dome.Base.Text.{contains}
use pico_dome.Base.Dict.{Dict, lookup}
use pico_dome.L3.Models.{
  value_error, file_not_found, Result, ok, err, ◌>>=◌, SyscallAction, deny, all_actions,
  all_targets, action_value, target_value, PolicyRule, Policy, RuleData, PolicyData,
  rules_from_list, policy_from_dict, policy_to_dict,
}
use pico_dome.L3.Rules.{default_rules, strict_rules, node_rules, python_rules}

-- `NAMED_POLICIES`
abbrev pub named_policies : Dict (List RuleData)
named_policies =
    ("default", default_rules)
    ∷ ("strict", strict_rules)
    ∷ ("node", node_rules)
    ∷ ("python", python_rules)
    ∷ []

abbrev pub built_in : String → List PolicyRule → Policy
built_in name rules = record {
  name = name;
  version = "1.0";
  default_action = deny;
  rules = rules;
  fail_closed = true;
}

-- `default_policy`, `strict_policy`, `node_policy` and `python_policy`.
unfoldable pub default_policy : Result Policy
unfolding rules_from_list
default_policy = do rules ← rules_from_list default_rules; ok (built_in "picodome-default" rules)

unfoldable pub strict_policy : Result Policy
unfolding rules_from_list
strict_policy = do rules ← rules_from_list strict_rules; ok (built_in "picodome-strict" rules)

unfoldable pub node_policy : Result Policy
unfolding rules_from_list
node_policy = do rules ← rules_from_list node_rules; ok (built_in "picodome-node" rules)

unfoldable pub python_policy : Result Policy
unfolding rules_from_list
python_policy = do rules ← rules_from_list python_rules; ok (built_in "picodome-python" rules)

-- A slash, a backslash, or two dots in a row.
unfoldable pub escapes : String → Bool
escapes String.[] = false
escapes (String.◌∷◌ c String.[]) = code c == b'/' || code c == b'\\'
escapes (String.◌∷◌ c (String.◌∷◌ d s)) =
    code c == b'/'
    || code c == b'\\'
    || (code c == b'.' && code d == b'.')
    || escapes (String.◌∷◌ d s)

module _ (read_file : String → Result PolicyData) where
  -- What `load_policy` does with a name that is none of the named policies'.
  unfoldable pub load_path : Option String → Result Policy
  unfolding policy_from_dict default_policy
  load_path none = default_policy
  load_path (some path) = do d ← read_file path; policy_from_dict d

  unfoldable pub load_policy : Option String → Option String → Result Policy
  unfolding load_path escapes lookup rules_from_list
  load_policy path none = load_path path
  load_policy path (some name) =
      if escapes name then err value_error else elim (lookup name named_policies) [
        | some data_rules ↦ do
          rules ← rules_from_list data_rules
          ok (built_in (str_append "picodome-" name) rules)
        | none ↦ load_path path
      ]

pub data PolicyError : Type 0 where
  no_rules : PolicyError
  duplicate_rule_id : String → PolicyError
  invalid_target : String → String → PolicyError
  invalid_action : String → String → PolicyError
  invalid_default_action : String → PolicyError

-- The loop over `seen_ids`.
unfoldable pub duplicate_ids : List String → List PolicyRule → List PolicyError
unfolding contains
duplicate_ids seen [] = []
duplicate_ids seen (r ∷ rules) =
    let rest = duplicate_ids (r.rule_id ∷ seen) rules in
    if contains seen r.rule_id then duplicate_rule_id r.rule_id ∷ rest else rest

unfoldable pub bad_targets : List PolicyRule → List PolicyError
unfolding contains target_value
bad_targets [] = []
bad_targets (r ∷ rules) =
    let rest = bad_targets rules in
    if contains (map target_value all_targets) (target_value r.target)
    then rest
    else invalid_target (target_value r.target) r.rule_id ∷ rest

unfoldable pub bad_actions : List PolicyRule → List PolicyError
unfolding contains action_value
bad_actions [] = []
bad_actions (r ∷ rules) =
    let rest = bad_actions rules in
    if contains (map action_value all_actions) (action_value r.action)
    then rest
    else invalid_action (action_value r.action) r.rule_id ∷ rest

unfoldable pub bad_default : SyscallAction → List PolicyError
unfolding contains action_value
bad_default a =
    if contains (map action_value all_actions) (action_value a)
    then []
    else invalid_default_action (action_value a) ∷ []

unfoldable pub validate_policy : Policy → List PolicyError
unfolding duplicate_ids bad_targets bad_actions bad_default
validate_policy p =
    (if is_empty p.rules then no_rules ∷ [] else [])
    ++ (duplicate_ids [] p.rules
        ++ (bad_targets p.rules ++ (bad_actions p.rules ++ bad_default p.default_action)))

-- `export_policy`: what is written.
unfoldable pub export_policy : Policy → PolicyData
unfolding policy_to_dict
export_policy p = policy_to_dict p

-- `import_policy`: `none` is a path where no file is.
unfoldable pub import_policy : Option PolicyData → Result Policy
unfolding policy_from_dict validate_policy
import_policy none = err file_not_found
import_policy (some d) = do
  p ← policy_from_dict d
  if is_empty (validate_policy p) then ok p else err value_error
