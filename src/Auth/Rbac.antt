-- ===== src/Auth/Rbac.antt =====
-- auth.py: `RBAC`. Only hashes of tokens are stored; the hash function is a parameter.
use pico_dome.Base.{
  String, none, some, Bool, true, ◌||◌, List, [], ◌∷◌, ◌≡◌, ◌≢◌, arith, if◌then◌else◌,
}
use pico_dome.Base.Text.{eq_refl, contains}
use pico_dome.Base.Dict.{Dict, lookup, insert, lookup-insert_self, lookup-insert_ne}

-- `Role`
abbrev pub submitter : String
submitter = "submitter"

abbrev pub reader : String
reader = "reader"

abbrev pub admin : String
admin = "admin"

-- `ROLE_PERMISSIONS`
abbrev pub role_permissions : Dict (List String)
role_permissions =
    ("submitter", "scan:submit" ∷ "scan:read" ∷ "health" ∷ [])
    ∷ ("reader", "scan:read" ∷ "policy:read" ∷ "baseline:read" ∷ "audit:read" ∷ "health" ∷ [])
    ∷ ("admin", "*" ∷ [])
    ∷ []

pub record Rbac : Type 0 where
  -- token hash to role
  pub role_map : Dict String
  pub valid_hashes : List String

abbrev pub empty_rbac : Rbac
empty_rbac = record { role_map = []; valid_hashes = [] }

-- `xs.add(x)` of a set
unfoldable pub add : String → List String → List String
unfolding contains
add x xs = if contains xs x then xs else x ∷ xs

-- `perms = ROLE_PERMISSIONS.get(role, set())`, and the test on it.
unfoldable pub role_allows : String → String → Bool
unfolding lookup contains
role_allows role permission =
    let perms : List String = elim (lookup role role_permissions) [ none ↦ [] | some ps ↦ ps ] in
    contains perms "*" || contains perms permission

module _ (hash_token : String → String) where
  unfoldable pub register_token : String → String → Rbac → Rbac
  unfolding add
  register_token token role r = record {
    role_map = insert (hash_token token) role r.role_map;
    valid_hashes = add (hash_token token) r.valid_hashes;
  }

  unfoldable pub get_role : String → Rbac → String
  get_role token r = elim (lookup (hash_token token) r.role_map) [ none ↦ reader | some x ↦ x ]

  unfoldable pub has_permission : String → String → Rbac → Bool
  unfolding get_role role_allows
  has_permission token permission r = role_allows (get_role token r) permission

  unfoldable pub is_known_token : String → Rbac → Bool
  unfolding contains
  is_known_token token r = contains r.valid_hashes (hash_token token)

  contains-add : (x : String) (xs : List String) → contains (add x xs) x ≡ true
  unfolding add contains
  contains-add x xs = ground (arith, eq_refl x)

  get_role-register_token_self :
      (token role : String) (r : Rbac) → get_role token (register_token token role r) ≡ role
  unfolding get_role register_token
  get_role-register_token_self token role r =
      ground (arith, lookup-insert_self (hash_token token) role r.role_map)

  get_role-register_token_ne :
      (token role other : String) (r : Rbac)
      → hash_token token ≢ hash_token other
      → get_role other (register_token token role r) ≡ get_role other r
  unfolding get_role register_token
  get_role-register_token_ne token role other r ne =
      ground (arith, lookup-insert_ne (hash_token token) (hash_token other) role r.role_map ne)

  known-register_token :
      (token role : String) (r : Rbac) → is_known_token token (register_token token role r) ≡ true
  unfolding is_known_token register_token
  known-register_token token role r = contains-add (hash_token token) r.valid_hashes

  -- A registered token is known and has the permissions of the role it was last registered with;
  -- registering it changes nothing for a token with another hash.
  pub has_permission-register_token :
      (token role other : String) (r : Rbac)
      → hash_token token ≢ hash_token other
      → let r' = register_token token role r in
        (is_known_token token r' ≡ true)
        × ((p : String) → has_permission token p r' ≡ role_allows role p)
        × ((p : String) → has_permission other p r' ≡ has_permission other p r)
  unfolding has_permission
  has_permission-register_token token role other r ne = (
    known-register_token token role r,
    λ p. rw (get_role-register_token_self token role r),
    λ p. rw (get_role-register_token_ne token role other r ne),
  )
