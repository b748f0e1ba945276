-- ===== src/Policies/Tests.antt =====
-- A sample policy, saved twice and rolled back, and the theorems at it. The hash of a policy is its
-- version.
use pico_dome.Base.{leb, String, some, true, [], ◌≡◌, refl}
use pico_dome.Base.Result.{ok, get_or}
use pico_dome.L3.Models.{Policy, deny}
use pico_dome.Policies.Version.{PolicyVersion}
use pico_dome.Policies.Store.{
  VersionedPolicyStore, dir_of, StoreParts, make_version, put_version, save, load, rollback,
}
use pico_dome.Policies.Saved.{IsNext, IsSound, IsSaved, save-IsSaved, rollback-IsSaved}

abbrev parts : StoreParts
parts = record {
  name_leb = leb;
  hash_policy = λ p. get_or p.version "";
  rollback_text = λ n. "Rollback";
}

abbrev policy : String → Policy
policy version = record {
  name = "web";
  version = version;
  default_action = deny;
  rules = [];
  fail_closed = true;
}

abbrev first : PolicyVersion
first = make_version parts "0" (policy "1.0") "ann" "" 1

abbrev store : VersionedPolicyStore
store =
    put_version parts (make_version parts "1" (policy "2.0") "bob" "" 2)
      (put_version parts first [])

abbrev second : PolicyVersion
second = make_version parts "1" (policy "2.0") "bob" "" 2

store-IsSound : IsSound parts "web" store
unfolding put_version
store-IsSound = ((first, refl, refl, (refl, refl)), ((second, refl, refl, (refl, refl)), tt))

save-IsSaved_example :
    (s' : VersionedPolicyStore) × (pv : PolicyVersion) × (save parts "2"
        (policy "3.0")
        "ann"
        ""
        store
      ≡ ok (s', pv))
    × (pv.policy ≡ policy "3.0")
    × IsNext (dir_of "web" store).versions pv.version
    × IsSaved parts store s' pv
unfolding put_version
save-IsSaved_example = save-IsSaved parts "2" "ann" "" (policy "3.0") store store-IsSound

rollback-IsSaved_example :
    (s' : VersionedPolicyStore) × (pv : PolicyVersion) × (rollback parts "2" "web" 1 "ann" store
      ≡ ok (s', some pv))
    × (pv.policy ≡ policy "1.0")
    × IsSaved parts store s' pv
unfolding put_version load
rollback-IsSaved_example =
    rollback-IsSaved parts "2" "web" "ann" 1 store {v = first} store-IsSound refl refl
