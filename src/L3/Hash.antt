-- ===== src/L3/Hash.antt =====
-- l3/policy_hash.py: the canonical form of a policy and its hash. The bytes that `json.dumps` and
-- `encode` give and the SHA-256 of bytes are arguments.
pub mod Normal
pub mod Same
use mathlib.Core.List.{Perm, Permᴰ}
use mathlib.Core.List.Perm
use mathlib.Core.Logic.{◌↔◌}
use text.Mathlib.TextEquality.{IsScalar-prop}
use pico_dome.Base.{
  String, Bool, true, List, [], ◌∷◌, map, Memᴰ, All-of_mem, ◌≡◌, ◌≢◌, refl, sym, ap, ◌∙◌, inl, inr,
  mem-cons_cases, All-mem,
}
use pico_dome.Base.Text.{str_leb, str_leb_total, str_leb_trans, str_leb_antisymm}
use pico_dome.Base.Sort.{sort_by, sort_by-perm, sort_by_unique, mem-sort_by, mem_of_mem-sort_by}
use pico_dome.L3.Models.{
  SyscallAction, RuleTarget, action_value, target_value, PolicyRule, Policy, RuleData, rule_to_dict,
  policy_to_dict, get_or, ok, parse_action, parse_target, parse_action-action_value,
  parse_target-target_value,
}
use pico_dome.L3.Validate.{DistinctIds}

pub record CanonicalRule : Type 0 where
  pub rule_id : String
  pub target : String
  pub action : String
  pub paths : List String
  pub addresses : List String
  pub syscalls : List String
  pub description : String

pub record CanonicalPolicy : Type 0 where
  pub name : String
  pub version : String
  pub default_action : String
  pub rules : List CanonicalRule

-- `_norm_rule`
unfoldable pub norm_rule : RuleData → CanonicalRule
unfolding sort_by str_leb
norm_rule r = record {
  rule_id = get_or r.rule_id "";
  target = get_or r.target "";
  action = get_or r.action "";
  paths = sort_by str_leb (get_or r.paths []);
  addresses = sort_by str_leb (get_or r.addresses []);
  syscalls = sort_by str_leb (get_or r.syscalls []);
  description = get_or r.description "";
}

-- The order of `sorted(…, key=lambda x: x["rule_id"])`.
unfoldable pub rule_leb : CanonicalRule → CanonicalRule → Bool
unfolding str_leb
rule_leb r s = str_leb r.rule_id s.rule_id

unfoldable pub canonical_policy_dict : Policy → CanonicalPolicy
unfolding policy_to_dict norm_rule rule_leb sort_by
canonical_policy_dict p =
    let d = policy_to_dict p in
    record {
      name = get_or d.name "";
      version = get_or d.version "";
      default_action = get_or d.default_action "";
      rules = sort_by rule_leb (map norm_rule (get_or d.rules []));
    }

unfoldable pub policy_hash :
    {Blob : Type 0} → (CanonicalPolicy → Blob) → (Blob → String) → Policy → String
unfolding canonical_policy_dict
policy_hash dumps sha256 p = sha256 (dumps (canonical_policy_dict p))
