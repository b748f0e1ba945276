-- ===== src/L4/Baselines.antt =====
-- l4/baseline.py: the shipped baselines, and baselines read from a file. A dictionary is a record of
-- the fields that the code looks up, each possibly missing.
use pico_dome.Base.{ℕ, String, Option, none, some, List, [], ◌∷◌, map, ◌≡◌, refl, if◌then◌else◌}
use pico_dome.Base.Int.{ℤ, pos}
use pico_dome.Base.Result.{Result, ok, ◌>>=◌, required, get_or}
use pico_dome.Base.Text.{str_eq}
use pico_dome.Base.Dict.{Dict, lookup, insert, lookup-insert}
use pico_dome.L4.Models.{Baseline}

abbrev shipped : String → String → ℕ → ℕ → ℕ → ℕ × ℕ → List String → List String → String → Baseline
shipped name package_name calls queries ops range domains paths notes = record {
  name = name;
  package_name = package_name;
  version = "*";
  expected_network_calls = pos calls;
  expected_dns_queries = pos queries;
  expected_fs_ops = pos ops;
  expected_spawns = pos 0;
  expected_runtime_ms_range = (pos range.0, pos range.1);
  allowed_domains = domains;
  allowed_paths = paths;
  notes = notes;
}

-- `SHIPPED_BASELINES`, before any is registered.
abbrev pub shipped_baselines : Dict Baseline
shipped_baselines =
    (
      "npm-install",
      shipped "npm-install" "npm" 10 5 500 (1000, 120000)
          ("registry.npmjs.org" ∷ "registry.yarnpkg.com" ∷ [])
          ("node_modules/**" ∷ "package.json" ∷ "package-lock.json" ∷ [])
          "Default npm install baseline — allows registry access and node_modules writes",
    )
    ∷ (
      "python-pip-install",
      shipped "python-pip-install" "pip" 5 3 200 (500, 60000)
          ("pypi.org" ∷ "files.pythonhosted.org" ∷ []) ("**/site-packages/**" ∷ "/tmp/**" ∷ [])
          "Default pip install baseline",
    )
    ∷ (
      "node-script",
      shipped "node-script" "node" 1 1 50 (10, 30000) ("localhost" ∷ []) ("**" ∷ [])
          "Generic Node.js script execution — allows local filesystem, denies external network",
    )
    ∷ (
      "python-script",
      shipped "python-script" "python" 0 0 100 (10, 30000) [] ("**" ∷ [])
          "Generic Python script execution — no network, local filesystem only",
    )
    ∷ (
      "curl-wget",
      shipped "curl-wget" "curl" 1 1 10 (100, 60000) ("*" ∷ []) ("/dev/null" ∷ "/tmp/**" ∷ [])
          "curl/wget download — allows any domain, writes to /tmp only",
    )
    ∷ []

unfoldable pub load_baseline : String → Dict Baseline → Option Baseline
unfolding lookup
load_baseline name baselines = lookup name baselines

unfoldable pub register_baseline : Baseline → Dict Baseline → Dict Baseline
unfolding insert
register_baseline b baselines = insert b.name b baselines

pub record BaselineData : Type 0 where
  pub name : Option String
  pub package_name : Option String
  pub version : Option String
  pub expected_network_calls : Option ℤ
  pub expected_dns_queries : Option ℤ
  pub expected_fs_ops : Option ℤ
  pub expected_spawns : Option ℤ
  pub expected_runtime_ms_range : Option (ℤ × ℤ)
  pub allowed_domains : Option (List String)
  pub allowed_paths : Option (List String)
  pub notes : Option String

-- `Baseline.to_dict`
unfoldable pub baseline_to_dict : Baseline → BaselineData
baseline_to_dict b = record {
  name = some b.name;
  package_name = some b.package_name;
  version = some b.version;
  expected_network_calls = some b.expected_network_calls;
  expected_dns_queries = some b.expected_dns_queries;
  expected_fs_ops = some b.expected_fs_ops;
  expected_spawns = some b.expected_spawns;
  expected_runtime_ms_range = some b.expected_runtime_ms_range;
  allowed_domains = some b.allowed_domains;
  allowed_paths = some b.allowed_paths;
  notes = some b.notes;
}

unfoldable pub baseline_from_dict : BaselineData → Result Baseline
baseline_from_dict d = do
  name ← required d.name
  ok (record {
    name = name;
    package_name = get_or d.package_name name;
    version = get_or d.version "";
    expected_network_calls = get_or d.expected_network_calls (pos 0);
    expected_dns_queries = get_or d.expected_dns_queries (pos 0);
    expected_fs_ops = get_or d.expected_fs_ops (pos 0);
    expected_spawns = get_or d.expected_spawns (pos 0);
    expected_runtime_ms_range = get_or d.expected_runtime_ms_range (pos 0, pos 0);
    allowed_domains = get_or d.allowed_domains [];
    allowed_paths = get_or d.allowed_paths [];
    notes = get_or d.notes "";
  })

-- The loop of `load_baselines_from_path` over the entries of the file.
unfoldable pub load_entries : List BaselineData → Dict Baseline → Result (Dict Baseline)
unfolding baseline_from_dict register_baseline
load_entries [] baselines = ok baselines
load_entries (d ∷ ds) baselines = do
  b ← baseline_from_dict d
  load_entries ds (register_baseline b baselines)

unfoldable pub load_baselines_from_path : List BaselineData → Result (Dict Baseline)
unfolding load_entries
load_baselines_from_path ds = load_entries ds []

-- The last baseline of the list with that name, or else the given one.
abbrev pub last_named : String → Option Baseline → List Baseline → Option Baseline
last_named n o [] = o
last_named n o (b ∷ bs) = last_named n (if str_eq b.name n then some b else o) bs

load_entries_lem :
    (n : String) (bs : List Baseline) (baselines : Dict Baseline)
    → (d : Dict Baseline) × (load_entries (map baseline_to_dict bs) baselines ≡ ok d)
      × (lookup n d ≡ last_named n (lookup n baselines) bs)
unfolding load_entries baseline_to_dict
load_entries_lem n [] baselines = (baselines, refl, refl)
load_entries_lem n (b ∷ bs) baselines =
    let (d, e, h) = load_entries_lem n bs (register_baseline b baselines) in
    (d, e, rw (lookup-insert b.name n b baselines) at h)

-- A file with the dictionaries of some baselines loads, and each name then stands for the last of them
-- with that name.
pub load_baselines_from_path_last :
    (n : String) (bs : List Baseline)
    → (d : Dict Baseline) × (load_baselines_from_path (map baseline_to_dict bs) ≡ ok d)
      × (load_baseline n d ≡ last_named n none bs)
unfolding load_baselines_from_path load_baseline lookup
load_baselines_from_path_last n bs = load_entries_lem n bs []
