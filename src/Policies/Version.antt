-- ===== src/Policies/Version.antt =====
-- policy_versioned/store.py: `PolicyVersion` and its dictionary.
use pico_dome.Base.{ℕ, String, Option, none, some, ◌≡◌, refl}
use pico_dome.Base.Result.{Result, ok, err, ◌>>=◌, get_or, key_error}
use pico_dome.L3.Models.{
  Policy, PolicyData, policy_to_dict, policy_from_dict, policy_from_dict-policy_to_dict,
}

pub record PolicyVersion : Type 0 where
  pub policy : Policy
  pub version : ℕ
  pub author : String
  pub timestamp : String
  pub change_description : String
  pub content_hash : String

-- A version file, as `json.loads` gives it. A key may be missing.
pub record VersionData : Type 0 where
  pub policy : Option PolicyData
  pub version : Option ℕ
  pub author : Option String
  pub timestamp : Option String
  pub change_description : Option String
  pub content_hash : Option String

-- `{}`, which stands for a policy that is missing
abbrev pub no_policy : PolicyData
no_policy = record {
  name = none;
  version = none;
  default_action = none;
  rules = none;
  fail_closed = none;
}

unfoldable pub version_to_dict : PolicyVersion → VersionData
unfolding policy_to_dict
version_to_dict v = record {
  policy = some (policy_to_dict v.policy);
  version = some v.version;
  author = some v.author;
  timestamp = some v.timestamp;
  change_description = some v.change_description;
  content_hash = some v.content_hash;
}

unfoldable pub version_from_dict : VersionData → Result PolicyVersion
unfolding policy_from_dict
version_from_dict d = do
  policy ← policy_from_dict (get_or d.policy no_policy)
  ok (record {
    policy = policy;
    version = get_or d.version 1;
    author = get_or d.author "unknown";
    timestamp = get_or d.timestamp "";
    change_description = get_or d.change_description "";
    content_hash = get_or d.content_hash "";
  })

pub version_from_dict-version_to_dict :
    (v : PolicyVersion) → version_from_dict (version_to_dict v) ≡ ok v
unfolding version_from_dict version_to_dict
version_from_dict-version_to_dict v = rw (policy_from_dict-policy_to_dict v.policy) refl

-- `_read_version_file`, of a file's content, which is `none` if it is not JSON. Only a missing key is
-- caught: a text that names no action or target raises its error further.
unfoldable pub read_version_file : Option VersionData → Result (Option PolicyVersion)
unfolding version_from_dict
read_version_file none = ok none
read_version_file (some d) = elim (version_from_dict d) [
  | ok v ↦ ok (some v)
  | err key_error ↦ ok none
  | err e ↦ err e
]

pub read_version_file-version_to_dict :
    (v : PolicyVersion) → read_version_file (some (version_to_dict v)) ≡ ok (some v)
unfolding read_version_file
read_version_file-version_to_dict v =
    rw (read_version_file, version_from_dict-version_to_dict v) refl
