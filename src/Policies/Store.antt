-- ===== src/Policies/Store.antt =====
-- policy_versioned/store.py: `VersionedPolicyStore`. The directory of a policy is its version files by
-- number, in the order of their names, and its latest.json. Where a new name stands in that order, the
-- hash of a policy's dictionary and the text of a rollback are arguments. Writing succeeds.
use pico_dome.Base.{
  ℕ, ◌+◌, max, String, Option, none, some, Bool, not, ◌&&◌, List, [], ◌∷◌, map, ◌==◌, ltb, filter,
  if◌then◌else◌,
}
use pico_dome.Base.Dict.{Dict, lookup, insert}
use pico_dome.Base.Text.{str_eq}
use pico_dome.Base.Result.{Result, ok, ◌>>=◌}
use pico_dome.L3.Models.{Policy, PolicyData, policy_to_dict}
use pico_dome.Policies.Version.{PolicyVersion, VersionData, version_to_dict, read_version_file}

pub record PolicyDir : Type 0 where
  pub versions : List (ℕ × Option VersionData)
  pub latest : Option (Option VersionData)

abbrev pub empty_dir : PolicyDir
empty_dir = record { versions = []; latest = none }

-- The directories by the names of their policies.
abbrev pub VersionedPolicyStore : Type 0
VersionedPolicyStore = Dict PolicyDir

-- The parts of the code that are not modelled.
pub record StoreParts : Type 0 where
  -- the name of one version file is not after that of another
  pub name_leb : ℕ → ℕ → Bool
  pub hash_policy : PolicyData → String
  pub rollback_text : ℕ → String

unfoldable pub dir_of : String → VersionedPolicyStore → PolicyDir
unfolding lookup
dir_of name s = elim (lookup name s) [ none ↦ empty_dir | some d ↦ d ]

-- The content of the file of a number.
unfoldable pub find_version : ℕ → List (ℕ × Option VersionData) → Option (Option VersionData)
find_version n [] = none
find_version n ((k, file) ∷ files) = if k == n then some file else find_version n files

abbrev pub with_read : Option PolicyVersion → List PolicyVersion → List PolicyVersion
with_read none vs = vs
with_read (some v) vs = v ∷ vs

-- The versions that can be read, in order; `_list_versions` of a directory.
unfoldable pub read_versions : List (ℕ × Option VersionData) → Result (List PolicyVersion)
unfolding read_version_file
read_versions [] = ok []
read_versions ((k, file) ∷ files) = do
  v ← read_version_file file
  vs ← read_versions files
  ok (with_read v vs)

unfoldable pub list_versions : String → VersionedPolicyStore → Result (List PolicyVersion)
unfolding dir_of read_versions
list_versions name s = read_versions (dir_of name s).versions

-- `max(v.version for v in existing) + 1 if existing else 1`
unfoldable pub highest : List PolicyVersion → ℕ
highest [] = 0
highest (v ∷ vs) = max v.version (highest vs)

abbrev pub next_version : List PolicyVersion → ℕ
next_version [] = 1
next_version (v ∷ vs) = highest (v ∷ vs) + 1

-- `max(versions, key=...)`, the first of the highest
unfoldable pub max_version : PolicyVersion → List PolicyVersion → PolicyVersion
max_version best [] = best
max_version best (v ∷ vs) =
    if ltb best.version v.version then max_version v vs else max_version best vs

abbrev pub latest_of : List PolicyVersion → Option PolicyVersion
latest_of [] = none
latest_of (v ∷ vs) = some (max_version v vs)

-- A file that is missing gives `None`.
unfoldable pub read_found : Option (Option VersionData) → Result (Option PolicyVersion)
unfolding read_version_file
read_found none = ok none
read_found (some file) = read_version_file file

unfoldable pub load : String → Option ℕ → VersionedPolicyStore → Result (Option PolicyVersion)
unfolding dir_of find_version read_found read_version_file list_versions max_version
load name (some n) s = read_found (find_version n (dir_of name s).versions)
load name none s = elim (dir_of name s).latest [
  | some file ↦ read_version_file file
  | none ↦ (do versions ← list_versions name s; ok (latest_of versions))
]

module _ (x : StoreParts) where
  -- A file is written under its number, in the place of its name.
  unfoldable pub write_version :
      ℕ → Option VersionData → List (ℕ × Option VersionData) → List (ℕ × Option VersionData)
  write_version n file [] = (n, file) ∷ []
  write_version n file ((k, old) ∷ files) =
      let rest = write_version n file files in
      if k == n
      then (n, file) ∷ files
      else if x.name_leb n k
      then (n, file) ∷ (k, old) ∷ files
      else (k, old) ∷ rest

  -- The version that `save` makes.
  abbrev pub make_version : String → Policy → String → String → ℕ → PolicyVersion
  make_version now policy author change_description n = record {
    policy = policy;
    version = n;
    author = author;
    timestamp = now;
    change_description = change_description;
    content_hash = x.hash_policy (policy_to_dict policy);
  }

  -- The version's file and latest.json are written.
  unfoldable pub put_version : PolicyVersion → VersionedPolicyStore → VersionedPolicyStore
  unfolding write_version version_to_dict insert dir_of
  put_version pv s =
      let file = some (version_to_dict pv) in
      insert pv.policy.name
        (record {
          versions = write_version pv.version file (dir_of pv.policy.name s).versions;
          latest = some file;
        })
        s

  unfoldable pub save :
      String
      → Policy
      → String
      → String
      → VersionedPolicyStore
      → Result (VersionedPolicyStore × PolicyVersion)
  unfolding list_versions highest put_version policy_to_dict
  save now policy author change_description s = do
    existing ← list_versions policy.name s
    let pv = make_version now policy author change_description (next_version existing) in
        ok (put_version pv s, pv)

  -- The policy of a version is saved again.
  unfoldable pub restore :
      String
      → ℕ
      → String
      → VersionedPolicyStore
      → Option PolicyVersion
      → Result (VersionedPolicyStore × Option PolicyVersion)
  unfolding save
  restore now version author s none = ok (s, none)
  restore now version author s (some pv) = do
    saved ← save now pv.policy author (x.rollback_text version) s
    ok (saved.0, some saved.1)

  unfoldable pub rollback :
      String
      → String
      → ℕ
      → String
      → VersionedPolicyStore
      → Result (VersionedPolicyStore × Option PolicyVersion)
  unfolding load restore
  rollback now name version author s = do
    target ← load name (some version) s
    restore now version author s target

  abbrev pub has_wrong_hash : PolicyVersion → Bool
  has_wrong_hash v =
      not (str_eq v.content_hash "")
      && not (str_eq v.content_hash (x.hash_policy (policy_to_dict v.policy)))

  -- The versions whose hash is not that of their policy; one without a hash is passed over.
  unfoldable pub verify_integrity : String → VersionedPolicyStore → Result (List ℕ)
  unfolding list_versions policy_to_dict filter
  verify_integrity name s = do
    versions ← list_versions name s
    ok (map (λ v. v.version) (filter has_wrong_hash versions))
