-- ===== src/L3/Hash/Normal.antt =====
-- l3/policy_hash.py: the normal forms of rules.
use mathlib.Core.List.{Perm, Permᴰ}
use mathlib.Core.List.Permᴰ
use mathlib.Core.Logic.{◌↔◌}
use text.Mathlib.TextEquality.{IsScalar-prop}
use pico_dome.Base.{
  String, List, [], ◌∷◌, map, Memᴰ, All-of_mem, ◌≡◌, ◌≢◌, refl, sym, ap, ◌∙◌, inl, inr,
  mem-cons_cases, All-mem,
}
use pico_dome.Base.Text.{str_leb, str_leb_total, str_leb_trans, str_leb_antisymm}
use pico_dome.Base.Sort.{sort_by, sort_by-perm, sort_by_unique}
use pico_dome.L3.Models.{
  SyscallAction, RuleTarget, action_value, target_value, PolicyRule, rule_to_dict, ok, parse_action,
  parse_target, parse_action-action_value, parse_target-target_value,
}
use pico_dome.L3.Validate.{DistinctIds}
use pico_dome.L3.Hash.{CanonicalRule, norm_rule}

str_sort_unique : (xs ys : List String) → Permᴰ xs ys → sort_by str_leb xs ≡ sort_by str_leb ys
str_sort_unique xs ys p =
    (sort_by_unique {0, 0} str_leb str_leb_total str_leb_trans (λ _. Unit) {xs = xs} {ys = ys}
      (λ x y _ _. str_leb_antisymm x y) p (All-of_mem (λ _. Unit) xs (λ _ _. tt))).0

str_sort_perm : (xs ys : List String) → sort_by str_leb xs ≡ sort_by str_leb ys → Perm xs ys
str_sort_perm xs ys e =
    let there : Permᴰ xs (sort_by str_leb ys) = rw e at (Permᴰ.symm (sort_by-perm str_leb xs)) in
    ∣ Permᴰ.trans there (sort_by-perm str_leb ys) ∣₁

str_sort_iff : (xs ys : List String) → (sort_by str_leb xs ≡ sort_by str_leb ys) ↔ Perm xs ys
str_sort_iff xs ys =
    (str_sort_perm xs ys, λ p. ∥∥₁_rec (hlevel (IsScalar-prop)) (str_sort_unique xs ys) p)

-- The same rule, up to the order in its lists.
abbrev pub SameRule : PolicyRule → PolicyRule → Type 0
SameRule r s =
    (r.rule_id ≡ s.rule_id)
    × (r.target ≡ s.target)
    × (r.action ≡ s.action)
    × Perm r.paths s.paths
    × Perm r.addresses s.addresses
    × Perm r.syscalls s.syscalls
    × (r.description ≡ s.description)

ok_inj : {A : Type 0} {x y : A} → ok x ≡ ok y → x ≡ y
ok_inj h = cc

pub action_value_inj : (a b : SyscallAction) → action_value a ≡ action_value b → a ≡ b
action_value_inj a b e =
    ok_inj (sym (parse_action-action_value a) ∙ ap parse_action e ∙ parse_action-action_value b)

target_value_inj : (t u : RuleTarget) → target_value t ≡ target_value u → t ≡ u
target_value_inj t u e =
    ok_inj (sym (parse_target-target_value t) ∙ ap parse_target e ∙ parse_target-target_value u)

pub norm_rule_iff :
    (r s : PolicyRule) → (norm_rule (rule_to_dict r) ≡ norm_rule (rule_to_dict s)) ↔ SameRule r s
unfolding norm_rule rule_to_dict
norm_rule_iff r s =
    let (tp, fp) = str_sort_iff r.paths s.paths in
    let (ta, fa) = str_sort_iff r.addresses s.addresses in
    let (ts, fs) = str_sort_iff r.syscalls s.syscalls in
    (
      λ h. (
        ap (λ c. c.rule_id) h,
        target_value_inj r.target s.target (ap (λ c. c.target) h),
        action_value_inj r.action s.action (ap (λ c. c.action) h),
        tp (ap (λ c. c.paths) h),
        ta (ap (λ c. c.addresses) h),
        ts (ap (λ c. c.syscalls) h),
        ap (λ c. c.description) h,
      ),
      λ (id, target, action, paths, addresses, syscalls, description).
          rw (id, target, action, fp paths, fa addresses, fs syscalls, description) refl,
    )

abbrev pub SameRules : List PolicyRule → List PolicyRule → Type 0
SameRules [] [] = Unit
SameRules [] (s ∷ ss) = ⊥
SameRules (r ∷ rs) [] = ⊥
SameRules (r ∷ rs) (s ∷ ss) = SameRule r s × SameRules rs ss

-- The rules before they are sorted.
abbrev pub norm_rules : List PolicyRule → List CanonicalRule
norm_rules rules = map norm_rule (map rule_to_dict rules)

pub norm_rules_same : (rs ss : List PolicyRule) → SameRules rs ss → norm_rules rs ≡ norm_rules ss
norm_rules_same [] [] h = refl
norm_rules_same [] (s ∷ ss) h = elim h [ ]
norm_rules_same (r ∷ rs) [] h = elim h [ ]
norm_rules_same (r ∷ rs) (s ∷ ss) h = rw ((norm_rule_iff r s).1 h.0, norm_rules_same rs ss h.1) refl

pub norm_rules_perm :
    {rs ss : List PolicyRule} → Permᴰ rs ss → Permᴰ (norm_rules rs) (norm_rules ss)
norm_rules_perm Permᴰ.nil = Permᴰ.nil
norm_rules_perm (Permᴰ.cons e p) = Permᴰ.cons (rw e refl) (norm_rules_perm p)
norm_rules_perm (Permᴰ.swap e f) = Permᴰ.swap (rw e refl) (rw f refl)
norm_rules_perm (Permᴰ.trans p q) = Permᴰ.trans (norm_rules_perm p) (norm_rules_perm q)

pub unique_of_DistinctIds :
    {r s : PolicyRule} (rules : List PolicyRule)
    → DistinctIds rules
    → Memᴰ r rules
    → Memᴰ s rules
    → r.rule_id ≡ s.rule_id
    → r ≡ s
unique_of_DistinctIds {r} {s} (t ∷ rules) h m n e = elim (mem-cons_cases m) [
  | inl a ↦ elim (mem-cons_cases n) [
    | inl b ↦ a ∙ sym b
    | inr n' ↦
        absurd (All-mem (λ u. t.rule_id ≢ u.rule_id) h.0 n' (ap (λ u. u.rule_id) (sym a) ∙ e))
  ]
  | inr m' ↦ elim (mem-cons_cases n) [
    | inl b ↦
        absurd (All-mem (λ u. t.rule_id ≢ u.rule_id) h.0 m' (ap (λ u. u.rule_id) (sym b) ∙ sym e))
    | inr n' ↦ unique_of_DistinctIds rules h.1 m' n' e
  ]
]
unique_of_DistinctIds [] h m n e = elim m [ ]

-- What the normal form of a rule of the list satisfies.
abbrev pub IsNormOf : List PolicyRule → CanonicalRule → Type 0
IsNormOf rules c = (r : PolicyRule) × Memᴰ r rules × (c ≡ norm_rule (rule_to_dict r))

pub mem-norm_rules :
    {c : CanonicalRule} (rules : List PolicyRule) → Memᴰ c (norm_rules rules) → IsNormOf rules c
mem-norm_rules [] m = elim m [ ]
mem-norm_rules (r ∷ rules) m = elim (mem-cons_cases m) [
  | inl e ↦ (r, Memᴰ.head refl, e)
  | inr n ↦ let (s, k, e) = mem-norm_rules rules n in (s, Memᴰ.tail k, e)
]

pub norm_rules-mem :
    {r : PolicyRule} (rules : List PolicyRule)
    → Memᴰ r rules
    → Memᴰ (norm_rule (rule_to_dict r)) (norm_rules rules)
norm_rules-mem [] m = elim m [ ]
norm_rules-mem (s ∷ rules) (Memᴰ.head e) = Memᴰ.head (rw e refl)
norm_rules-mem (s ∷ rules) (Memᴰ.tail m) = Memᴰ.tail (norm_rules-mem rules m)
