-- ===== src/Auth/Tests.antt =====
-- Sample tokens, with the identity for the hash, and the theorems at them.
use Prim.Native.String.{count}
use pico_dome.Base.{
  ◌+◌, ◌-◌, ◌*◌, max, String, none, some, true, false, List, [], ◌∷◌, ◌≡◌, ◌≢◌, refl, arith,
}
use mathlib.Core.Option
use pico_dome.Base.Text.{contains, str_eq, eq_iff}
use pico_dome.Base.Dict.{lookup, insert}
use pico_dome.Auth.Rbac.{empty_rbac, get_role}
use pico_dome.Auth.Tokens.{TokenAuth, new_auth, check_brute_force, validate}
use pico_dome.Auth.Backoff.{validate_all, Counted, validate_all_bounded}
use pico_dome.Auth.Validate.{answer_of, may_pass, validate_answer}

abbrev hash : String → String
hash t = t

ne_of_str_eq : (s t : String) → str_eq s t ≡ false → s ≢ t
ne_of_str_eq s t e = ground (arith, eq_iff s t)

abbrev auth : TokenAuth
auth = record {
  rbac = empty_rbac;
  token_hashes = "picodome-admin-x1" ∷ [];
  failed_attempts = ("guess", (6, 1000)) ∷ [];
  is_enterprise = false;
}

-- The role stands between the dashes, and a token without one is a reader's.
new_auth_run :
    Option.map {B = String × String × List String}
      (λ a.
        (get_role hash "picodome-admin-x1" a.rbac, get_role hash "plain" a.rbac, a.token_hashes))
      (new_auth hash false false ("picodome-admin-x1" ∷ "abc" ∷ []) ("# note" ∷ "plain" ∷ []))
    ≡ some ("admin", "reader", "plain" ∷ "picodome-admin-x1" ∷ [])
unfolding new_auth get_role lookup insert
new_auth_run = refl

validate_all_bounded_example :
    Counted hash "guess"
      (1000 * max 6 5 + (9000 - 1000))
      9000
      (validate_all hash (2000 ∷ 4000 ∷ 9000 ∷ []) false "guess" auth)
unfolding lookup contains
validate_all_bounded_example =
    validate_all_bounded hash (2000 ∷ 4000 ∷ 9000 ∷ []) false "guess" 6 1000 9000 auth refl refl
      (omega arith)

validate_answer_example :
    (validate hash 0 false "picodome-admin-x1" auth).1
    ≡ answer_of (check_brute_force 0 "picodome-admin-x1" auth) (
        may_pass false false
          ("picodome-admin-x1" ∷ [])
          (count "picodome-admin-x1")
          "picodome-admin-x1")
validate_answer_example = validate_answer hash 0 false "picodome-admin-x1" auth

validate_run : (validate hash 0 false "picodome-admin-x1" auth).1 ≡ some true
unfolding validate lookup
validate_run = refl

-- After so many failures no wait can be computed, and no token gets an answer.
validate_overflow_run :
    (validate hash 0 false "lost" (record auth { failed_attempts = ("lost", (1029, 0)) ∷ [] })).1
    ≡ none
unfolding validate lookup
validate_overflow_run = refl
