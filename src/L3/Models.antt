-- ===== src/L3/Models.antt =====
-- l3/models.py: `SyscallAction`, `RuleTarget`, `PolicyRule`, `Policy`, and l3/policy.py: rules and
-- policies read from dictionaries. A dictionary is a record of the fields that the code looks up, each
-- possibly missing; a field that is there has the type that the dataclass declares.
pub use pico_dome.Base.Result.{
  Error, key_error, value_error, file_not_found, Result, ok, err, Result-cases, ◌>>=◌, required,
  get_or,
}
use pico_dome.Base.{String, Option, some, Bool, true, List, [], ◌∷◌, map, ◌≡◌, refl}
use pico_dome.Base.Result.{member, or_value_error}

pub data SyscallAction : Type 0 where
  allow deny kill trace : SyscallAction

pub data RuleTarget : Type 0 where
  file_read file_write file_exec network_out network_in network_bind : RuleTarget
  process_spawn process_kill dns_query signal_send syscall_generic : RuleTarget

unfoldable pub action_value : SyscallAction → String
action_value allow = "allow"
action_value deny = "deny"
action_value kill = "kill"
action_value trace = "trace"

unfoldable pub target_value : RuleTarget → String
target_value file_read = "file_read"
target_value file_write = "file_write"
target_value file_exec = "file_exec"
target_value network_out = "network_out"
target_value network_in = "network_in"
target_value network_bind = "network_bind"
target_value process_spawn = "process_spawn"
target_value process_kill = "process_kill"
target_value dns_query = "dns_query"
target_value signal_send = "signal_send"
target_value syscall_generic = "syscall_generic"

-- The members of the enumerations, in order.
abbrev pub all_actions : List SyscallAction
all_actions = allow ∷ deny ∷ kill ∷ trace ∷ []

abbrev pub all_targets : List RuleTarget
all_targets =
    file_read ∷ file_write ∷ file_exec ∷ network_out ∷ network_in ∷ network_bind ∷ process_spawn
    ∷ process_kill ∷ dns_query ∷ signal_send ∷ syscall_generic ∷ []

unfoldable pub parse_action : String → Result SyscallAction
unfolding member action_value
parse_action text = or_value_error (member action_value all_actions text)

unfoldable pub parse_target : String → Result RuleTarget
unfolding member target_value
parse_target text = or_value_error (member target_value all_targets text)

pub record PolicyRule : Type 0 where
  pub rule_id : String
  pub target : RuleTarget
  pub action : SyscallAction
  pub paths : List String
  pub addresses : List String
  pub syscalls : List String
  pub description : String

pub record Policy : Type 0 where
  pub name : String
  pub version : String
  pub default_action : SyscallAction
  pub rules : List PolicyRule
  pub fail_closed : Bool

pub record RuleData : Type 0 where
  pub rule_id : Option String
  pub target : Option String
  pub action : Option String
  pub paths : Option (List String)
  pub addresses : Option (List String)
  pub syscalls : Option (List String)
  pub description : Option String

pub record PolicyData : Type 0 where
  pub name : Option String
  pub version : Option String
  pub default_action : Option String
  pub rules : Option (List RuleData)
  pub fail_closed : Option Bool

-- `PolicyRule.to_dict`
unfoldable pub rule_to_dict : PolicyRule → RuleData
unfolding action_value target_value
rule_to_dict r = record {
  rule_id = some r.rule_id;
  target = some (target_value r.target);
  action = some (action_value r.action);
  paths = some r.paths;
  addresses = some r.addresses;
  syscalls = some r.syscalls;
  description = some r.description;
}

-- `Policy.to_dict`
unfoldable pub policy_to_dict : Policy → PolicyData
unfolding rule_to_dict action_value
policy_to_dict p = record {
  name = some p.name;
  version = some p.version;
  default_action = some (action_value p.default_action);
  rules = some (map rule_to_dict p.rules);
  fail_closed = some p.fail_closed;
}

-- One rule of `_rules_from_list` and of `_policy_from_dict`.
unfoldable pub rule_from_dict : RuleData → Result PolicyRule
unfolding parse_target parse_action
rule_from_dict d = do
  rule_id ← required d.rule_id
  target_text ← required d.target
  target ← parse_target target_text
  action_text ← required d.action
  action ← parse_action action_text
  ok (record {
    rule_id = rule_id;
    target = target;
    action = action;
    paths = get_or d.paths [];
    addresses = get_or d.addresses [];
    syscalls = get_or d.syscalls [];
    description = get_or d.description "";
  })

-- `_rules_from_list`; the first rule that cannot be read ends it.
unfoldable pub rules_from_list : List RuleData → Result (List PolicyRule)
unfolding rule_from_dict
rules_from_list [] = ok []
rules_from_list (d ∷ ds) = do rule ← rule_from_dict d; rules ← rules_from_list ds; ok (rule ∷ rules)

-- `_policy_from_dict`
unfoldable pub policy_from_dict : PolicyData → Result Policy
unfolding rules_from_list parse_action
policy_from_dict d = do
  rules ← rules_from_list (get_or d.rules [])
  default_action ← parse_action (get_or d.default_action "deny")
  ok (record {
    name = get_or d.name "custom";
    version = get_or d.version "1.0";
    default_action = default_action;
    rules = rules;
    fail_closed = get_or d.fail_closed true;
  })

pub parse_action-action_value : (a : SyscallAction) → parse_action (action_value a) ≡ ok a
unfolding parse_action action_value
parse_action-action_value allow = refl
parse_action-action_value _ = refl

pub parse_target-target_value : (t : RuleTarget) → parse_target (target_value t) ≡ ok t
unfolding parse_target target_value
parse_target-target_value file_read = refl
parse_target-target_value _ = refl

rule_from_dict-rule_to_dict : (r : PolicyRule) → rule_from_dict (rule_to_dict r) ≡ ok r
unfolding rule_from_dict rule_to_dict
rule_from_dict-rule_to_dict r =
    rw (parse_target-target_value r.target, parse_action-action_value r.action)

rules_from_list-map :
    (rules : List PolicyRule) → rules_from_list (map rule_to_dict rules) ≡ ok rules
unfolding rules_from_list
rules_from_list-map [] = refl
rules_from_list-map (r ∷ rules) = rw (rule_from_dict-rule_to_dict r, rules_from_list-map rules)

-- Reading back the dictionary of a policy gives the policy, whatever its rules.
pub policy_from_dict-policy_to_dict : (p : Policy) → policy_from_dict (policy_to_dict p) ≡ ok p
unfolding policy_from_dict policy_to_dict
policy_from_dict-policy_to_dict p =
    rw (rules_from_list-map p.rules, parse_action-action_value p.default_action)
