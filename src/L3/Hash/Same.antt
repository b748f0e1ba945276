-- ===== src/L3/Hash/Same.antt =====
-- l3/policy_hash.py: which policies have one hash.
use mathlib.Core.List.{Permᴰ}
use pico_dome.Base.{String, true, List, Memᴰ, All-of_mem, ◌≡◌, refl, sym, ap, ◌∙◌}
use pico_dome.Base.Text.{str_leb_total, str_leb_trans, str_leb_antisymm}
use pico_dome.Base.Sort.{sort_by, sort_by_unique, mem-sort_by, mem_of_mem-sort_by}
use pico_dome.L3.Models.{PolicyRule, Policy, rule_to_dict, policy_to_dict}
use pico_dome.L3.Validate.{DistinctIds}
use pico_dome.L3.Hash.{
  CanonicalRule, CanonicalPolicy, norm_rule, rule_leb, canonical_policy_dict, policy_hash,
}
use pico_dome.L3.Hash.Normal.{
  SameRule, SameRules, IsNormOf, norm_rules, action_value_inj, norm_rule_iff, norm_rules_same,
  norm_rules_perm, unique_of_DistinctIds, mem-norm_rules, norm_rules-mem,
}

sort_norm_rules :
    {rs ss : List PolicyRule}
    → DistinctIds rs
    → Permᴰ rs ss
    → sort_by rule_leb (norm_rules rs) ≡ sort_by rule_leb (norm_rules ss)
unfolding rule_leb norm_rule rule_to_dict
sort_norm_rules {rs} {ss} h p =
    (sort_by_unique {0, 0} rule_leb (λ c d. str_leb_total c.rule_id d.rule_id)
      (λ c d e. str_leb_trans c.rule_id d.rule_id e.rule_id) (IsNormOf rs) anti (norm_rules_perm p)
      (All-of_mem (IsNormOf rs) (norm_rules rs) (λ c m. mem-norm_rules rs m))).0
  where
    anti :
        (c d : CanonicalRule)
        → IsNormOf rs c
        → IsNormOf rs d
        → rule_leb c d ≡ true
        → rule_leb d c ≡ true
        → c ≡ d
    anti c d (r, m, e) (s, n, f) a b =
        let ids = str_leb_antisymm c.rule_id d.rule_id a b in
        let same : r.rule_id ≡ s.rule_id =
          ap (λ x. x.rule_id) (sym e) ∙ ids ∙ ap (λ x. x.rule_id) f in
        e ∙ ap (λ x. norm_rule (rule_to_dict x)) (unique_of_DistinctIds rs h m n same) ∙ sym f

-- The name, the version and the default action are the same.
abbrev pub SameHeader : Policy → Policy → Type 0
SameHeader p q = (p.name ≡ q.name) × (p.version ≡ q.version) × (p.default_action ≡ q.default_action)

-- Two policies with the same name, version and default action, no two of whose rules have one id, and
-- whose rules are the same up to their order and the order in their lists have one hash, also when one
-- of them fails closed and the other does not.
pub policy_hash_same :
    {Blob : Type 0} (dumps : CanonicalPolicy → Blob) (sha256 : Blob → String) (p q : Policy)
    (rules : List PolicyRule)
    → SameHeader p q
    → DistinctIds p.rules
    → Permᴰ p.rules rules
    → SameRules rules q.rules
    → policy_hash dumps sha256 p ≡ policy_hash dumps sha256 q
unfolding policy_hash canonical_policy_dict policy_to_dict
policy_hash_same dumps sha256 p q rules (name, version, action) distinct perm same =
    let sorted = sort_norm_rules distinct perm in
    rw (name, version, action, sorted, norm_rules_same rules q.rules same) refl

-- Where the encoding never collides and the digest does not on them, two policies with one hash have the same name,
-- version and default action, and each rule of the one is a rule of the other, up to the order in its
-- lists.
pub policy_hash_tells :
    {Blob : Type 0} (dumps : CanonicalPolicy → Blob) (sha256 : Blob → String) (p q : Policy)
    → ((c d : CanonicalPolicy) → dumps c ≡ dumps d → c ≡ d)
    → (let c = dumps (canonical_policy_dict p) in
        let d = dumps (canonical_policy_dict q) in sha256 c ≡ sha256 d → c ≡ d)
    → policy_hash dumps sha256 p ≡ policy_hash dumps sha256 q
    → SameHeader p q
      × ((r : PolicyRule) → Memᴰ r p.rules → (s : PolicyRule) × Memᴰ s q.rules × SameRule r s)
unfolding policy_hash canonical_policy_dict policy_to_dict
policy_hash_tells dumps sha256 p q faithful no_collision e =
    let c = faithful (canonical_policy_dict p) (canonical_policy_dict q) (no_collision e) in
    (
      (
        ap (λ d. d.name) c,
        ap (λ d. d.version) c,
        action_value_inj p.default_action q.default_action (ap (λ d. d.default_action) c),
      ),
      λ r m. there r (
          rw (ap (λ d. d.rules) c) at
            (mem-sort_by rule_leb (norm_rules p.rules) (norm_rules-mem p.rules m))),
    )
  where
    there :
        (r : PolicyRule)
        → Memᴰ (norm_rule (rule_to_dict r)) (sort_by rule_leb (norm_rules q.rules))
        → (s : PolicyRule) × Memᴰ s q.rules × SameRule r s
    there r m =
        let (s, n, same) =
          mem-norm_rules q.rules (mem_of_mem-sort_by rule_leb (norm_rules q.rules) m) in
        (s, n, (norm_rule_iff r s).0 same)
