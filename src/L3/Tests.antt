-- ===== src/L3/Tests.antt =====
-- Sample policies, and the theorems at them.
use mathlib.Core.List.{Permᴰ}
use mathlib.Core.List.Perm
use pico_dome.Base.{String, some, true, false, [], ◌∷◌, Memᴰ, is_empty, ◌≡◌, ◌≢◌, ◌↔◌, refl}
use pico_dome.Base.Text.{eq_iff}
use pico_dome.L3.Models.{
  Error, value_error, Result, ok, err, allow, deny, file_read, network_out, PolicyRule, Policy,
  PolicyData, policy_from_dict, policy_to_dict,
}
use pico_dome.L3.Policy.{PolicyError, escapes, validate_policy, export_policy, import_policy}
use pico_dome.L3.Validate.{DistinctIds, import_policy-export_policy}
use pico_dome.L3.Hash.{CanonicalPolicy, canonical_policy_dict, policy_hash}
use pico_dome.L3.Hash.Normal.{SameRule}
use pico_dome.L3.Hash.Same.{SameHeader, policy_hash_same, policy_hash_tells}

abbrev read_rule : PolicyRule
read_rule = record {
  rule_id = "R1";
  target = file_read;
  action = allow;
  paths = "/usr/**" ∷ "/lib/**" ∷ [];
  addresses = [];
  syscalls = [];
  description = "read";
}

abbrev net_rule : PolicyRule
net_rule = record {
  rule_id = "R2";
  target = network_out;
  action = deny;
  paths = [];
  addresses = "10.0.0.1" ∷ [];
  syscalls = [];
  description = "net";
}

abbrev read_rule_sorted : PolicyRule
read_rule_sorted = record read_rule { paths = "/lib/**" ∷ "/usr/**" ∷ [] }

abbrev policy : Policy
policy = record {
  name = "sample";
  version = "1.0";
  default_action = deny;
  rules = read_rule ∷ net_rule ∷ [];
  fail_closed = true;
}

-- The same rules the other way round, failing open.
abbrev reordered : Policy
reordered = record policy { rules = net_rule ∷ read_rule_sorted ∷ []; fail_closed = false }

abbrev no_file : String → Result PolicyData
no_file path = err Error.file_not_found

R1_R2-ne : read_rule.rule_id ≢ net_rule.rule_id
R1_R2-ne e = let h = (eq_iff "R1" "R2").1 e in cc

policy_distinct : DistinctIds policy.rules
policy_distinct = ((R1_R2-ne, tt), (tt, tt))

duplicate_run :
    validate_policy (record policy { rules = read_rule ∷ read_rule ∷ [] })
    ≡ PolicyError.duplicate_rule_id "R1" ∷ []
unfolding validate_policy
duplicate_run = refl

escapes_run : (escapes "../x" ≡ true) × (escapes "node" ≡ false)
unfolding escapes
escapes_run = (refl, refl)

missing_target_run :
    policy_from_dict (record (policy_to_dict policy) { default_action = some "ask" })
    ≡ err value_error
unfolding policy_from_dict policy_to_dict
missing_target_run = refl

import_policy-export_policy_example :
    (import_policy (some (export_policy policy)) ≡ ok policy)
    ↔ ((is_empty policy.rules ≡ false) × DistinctIds policy.rules)
import_policy-export_policy_example = import_policy-export_policy policy

policy_perm : Permᴰ policy.rules (net_rule ∷ read_rule ∷ [])
policy_perm = Permᴰ.swap refl refl

read_rule_same : SameRule read_rule read_rule_sorted
read_rule_same =
    (refl, refl, refl, Perm.swap "/lib/**" "/usr/**" [], Perm.refl [], Perm.refl [], refl)

net_rule_same : SameRule net_rule net_rule
net_rule_same = (refl, refl, refl, Perm.refl [], Perm.refl ("10.0.0.1" ∷ []), Perm.refl [], refl)

canonical_same : canonical_policy_dict policy ≡ canonical_policy_dict reordered
unfolding canonical_policy_dict
canonical_same = refl

same_hash :
    policy_hash {Blob = CanonicalPolicy} (λ c. c) (λ c. c.name) policy
    ≡ policy_hash {Blob = CanonicalPolicy} (λ c. c) (λ c. c.name) reordered
same_hash =
    policy_hash_same {Blob = CanonicalPolicy} (λ c. c) (λ c. c.name) policy reordered
      (net_rule ∷ read_rule ∷ []) (refl, refl, refl) policy_distinct policy_perm
      (net_rule_same, (read_rule_same, tt))

policy_hash_tells_example :
    SameHeader policy reordered
    × ((r : PolicyRule)
        → Memᴰ r policy.rules
        → (s : PolicyRule) × Memᴰ s reordered.rules × SameRule r s)
policy_hash_tells_example =
    policy_hash_tells {Blob = CanonicalPolicy} (λ c. c) (λ c. c.name) policy reordered (λ c d e. e)
      (λ _. canonical_same) same_hash
