-- ===== src/Tenant/Registry.antt =====
-- tenant/__init__.py: `TenantId`, `TenantRegistry` and the configuration from the environment. Lower
-- case without white space around it, and the test of a text's characters, are arguments.
use Prim.Native.String.{◌++◌ as str_append}
use pico_dome.Base.{
  String, Option, none, some, Bool, false, List, [], ◌∷◌, ◌≡◌, refl, inl, inr, arith, is_some,
  if◌then◌else◌, Bool-cases, Option-cases, sym, ap, ◌∙◌,
}
use pico_dome.Base.Dict.{
  Dict, lookup, insert, pop, lookup-pop, lookup-cons_cases, lookup-insert_self,
}
use pico_dome.Base.Text.{str_eq, eq_iff}

-- `strip().lower()`, and whether each character is alphanumeric or one of `-_`.
pub record TextRules : Type 0 where
  pub normalize : String → String
  pub is_name : String → Bool

pub record TenantId : Type 0 where
  pub value : String

abbrev pub default_tenant : TenantId
default_tenant = record { value = "default" }

pub record TenantContext : Type 0 where
  pub tenant_id : TenantId
  pub display_name : String

pub record TenantRegistry : Type 0 where
  pub tenants : Dict TenantContext
  -- token hash to tenant
  pub token_map : Dict TenantId

abbrev pub new_registry : TenantRegistry
new_registry = record { tenants = []; token_map = [] }

module _ (rules : TextRules) where
  abbrev pub normalized : TenantId → String
  normalized t = rules.normalize t.value

  -- `__eq__`
  abbrev pub is_same : TenantId → TenantId → Bool
  is_same t u = str_eq (normalized t) (normalized u)

  -- `TenantId(value)`; `none` is the `ValueError`.
  unfoldable pub tenant_id : String → Option TenantId
  tenant_id value =
      if str_eq (rules.normalize value) ""
      then none
      else if rules.is_name (rules.normalize value)
      then some (record { value = value })
      else none

  unfoldable pub register : TenantContext → TenantRegistry → TenantRegistry
  unfolding insert
  register c r = record r { tenants = insert (normalized c.tenant_id) c r.tenants }

  -- The mappings to another tenant.
  unfoldable pub drop_mappings : TenantId → Dict TenantId → Dict TenantId
  drop_mappings t [] = []
  drop_mappings t ((h, u) ∷ d) =
      let rest = drop_mappings t d in if is_same u t then rest else (h, u) ∷ rest

  unfoldable pub unregister : TenantId → TenantRegistry → TenantRegistry
  unfolding drop_mappings pop
  unregister t r = record {
    tenants = pop (normalized t) r.tenants;
    token_map = drop_mappings t r.token_map;
  }

  unfoldable pub get : TenantId → TenantRegistry → Option TenantContext
  unfolding lookup
  get t r = lookup (normalized t) r.tenants

  unfoldable pub map_token : String → TenantId → TenantRegistry → TenantRegistry
  unfolding insert
  map_token token_hash t r = record r { token_map = insert token_hash t r.token_map }

  -- The tenant of a header: it must be well formed and registered.
  unfoldable pub header_tenant : String → TenantRegistry → Option TenantId
  unfolding tenant_id lookup
  header_tenant header r = elim (tenant_id header) [
    | none ↦ none
    | some t ↦ if is_some (lookup (normalized t) r.tenants) then some t else none
  ]

  -- The tenant that a token is mapped to, or the default.
  unfoldable pub token_tenant : String → TenantRegistry → TenantId
  unfolding lookup
  token_tenant token_hash r = elim (lookup token_hash r.token_map) [
    | none ↦ default_tenant
    | some t ↦ t
  ]

  unfoldable pub resolve_tenant : String → Option String → TenantRegistry → TenantId
  unfolding header_tenant token_tenant
  resolve_tenant token_hash none r = token_tenant token_hash r
  resolve_tenant token_hash (some header) r =
      if str_eq header ""
      then token_tenant token_hash r
      else elim (header_tenant header r) [ none ↦ token_tenant token_hash r | some t ↦ t ]

  unfoldable pub tenant_key : TenantId → String → String
  tenant_key t key = str_append "tenant:" (str_append (normalized t) (str_append ":" key))

  -- The tenants of the environment, as the parts of each entry; `none` is the `ValueError` of a bad id.
  unfoldable pub load_tenants :
      List (String × Option String) → TenantRegistry → Option TenantRegistry
  unfolding tenant_id register
  load_tenants [] r = some r
  load_tenants ((id, name) ∷ entries) r = elim (tenant_id id) [
    | none ↦ none
    | some t ↦
        let c : TenantContext = record {
          tenant_id = t;
          display_name = elim name [ none ↦ id | some n ↦ n ];
        } in
        load_tenants entries (register c r)
  ]

  -- The mappings of the environment; an entry of one part, or with a bad id, is skipped.
  unfoldable pub load_mappings : List (String × Option String) → TenantRegistry → TenantRegistry
  unfolding tenant_id map_token
  load_mappings [] r = r
  load_mappings ((token_hash, none) ∷ entries) r = load_mappings entries r
  load_mappings ((token_hash, some id) ∷ entries) r = elim (tenant_id id) [
    | none ↦ load_mappings entries r
    | some t ↦ load_mappings entries (map_token token_hash t r)
  ]

  unfoldable pub load_tenants_from_env :
      List (String × Option String) → List (String × Option String) → Option TenantRegistry
  unfolding load_tenants load_mappings
  load_tenants_from_env tenants mappings = elim (load_tenants tenants new_registry) [
    | none ↦ none
    | some r ↦ some (load_mappings mappings r)
  ]

  lookup-drop_mappings :
      (t : TenantId) (h : String) (d : Dict TenantId) {u : TenantId}
      → lookup h (drop_mappings t d) ≡ some u
      → is_same u t ≡ false
  unfolding drop_mappings lookup
  lookup-drop_mappings t h [] e = cc
  lookup-drop_mappings t h ((k, v) ∷ d) {u} e = elim (Bool-cases (is_same v t)) [
    | inl b ↦ lookup-drop_mappings t h d (rw b at e)
    | inr b ↦ elim (lookup-cons_cases h k v (drop_mappings t d) (rw b at e)) [
      | inl q ↦ ap (λ x. is_same x t) (sym q) ∙ b
      | inr q ↦ lookup-drop_mappings t h d q
    ]
  ]

  token_tenant-unregister :
      (t : TenantId) (token_hash : String) (r : TenantRegistry)
      → is_same default_tenant t ≡ false
      → is_same (token_tenant token_hash (unregister t r)) t ≡ false
  unfolding token_tenant unregister
  token_tenant-unregister t token_hash r n =
      elim (Option-cases (lookup token_hash (drop_mappings t r.token_map))) [
        | inl e ↦ rw (token_tenant, e) n
        | inr (u, e) ↦ rw (token_tenant, e) (lookup-drop_mappings t token_hash r.token_map e)
      ]

  header_tenant-unregister :
      (t : TenantId) (header : String) (r : TenantRegistry) {u : TenantId}
      → header_tenant header (unregister t r) ≡ some u
      → is_same u t ≡ false
  unfolding header_tenant unregister
  header_tenant-unregister t header r {u} e = elim (Option-cases (tenant_id header)) [
    | inl q ↦ absurd (none_of_some (rw (header_tenant, q) at e))
    | inr (v, q) ↦ elim (Bool-cases (str_eq (normalized t) (normalized v))) [
      | inl b ↦ absurd (none_of_some (rw (header_tenant, q, lookup-pop, b) at e))
      | inr b ↦
          ap (λ x. is_same x t) (sym (held v b (rw (header_tenant, q, lookup-pop, b) at e)))
          ∙ ground
              (arith, b, eq_iff (normalized t) (normalized v), eq_iff (normalized v) (normalized t))
    ]
  ]
    where
      none_of_some : ◌≡◌ {A = Option TenantId} none (some u) → ⊥
      none_of_some f = cc

      held :
          (v : TenantId)
          → str_eq (normalized t) (normalized v) ≡ false
          → (if is_some (lookup (normalized v) r.tenants) then some v else none) ≡ some u
          → v ≡ u
      held v b f = ground (arith, f)

  -- After `unregister` no request is of the tenant, whatever its token and header, unless this is the
  -- default tenant.
  pub resolve_tenant-unregister :
      (t : TenantId) (token_hash : String) (header : Option String) (r : TenantRegistry)
      → is_same default_tenant t ≡ false
      → is_same (resolve_tenant token_hash header (unregister t r)) t ≡ false
  unfolding resolve_tenant
  resolve_tenant-unregister t token_hash none r n = token_tenant-unregister t token_hash r n
  resolve_tenant-unregister t token_hash (some header) r n = elim (Bool-cases (str_eq header "")) [
    | inl b ↦ rw b (token_tenant-unregister t token_hash r n)
    | inr b ↦ elim (Option-cases (header_tenant header (unregister t r))) [
      | inl e ↦ rw (b, e) (token_tenant-unregister t token_hash r n)
      | inr (u, e) ↦ rw (b, e) (header_tenant-unregister t header r e)
    ]
  ]

  -- Whatever tenant a token is mapped to, and if it is mapped to none, a request with it is of any
  -- registered tenant that the header names.
  pub resolve_tenant-register :
      (value token_hash : String) (c : TenantContext) (u : TenantId) (r : TenantRegistry)
      → tenant_id value ≡ some c.tenant_id
      → str_eq value "" ≡ false
      → resolve_tenant token_hash (some value) (map_token token_hash u (register c r)) ≡ c.tenant_id
  unfolding resolve_tenant header_tenant map_token register
  resolve_tenant-register value token_hash c u r e n = rw (n, e, lookup-insert_self) refl
