-- ===== src/Retention/Manager.antt =====
-- retention/manager.py: `RetentionPolicy`, `RetentionConfig`, `_cleanup_directory` and `run_cleanup`. Times
-- are whole seconds. The JSON files of a directory are listed in the order that `glob` gives; what the
-- deletion of a file leaves of it is an argument, and reading its size and time succeeds.
use pico_dome.Base.{
  ℕ, ◌+◌, ◌-◌, ◌*◌, String, Option, none, some, Bool, true, false, List, [], ◌∷◌, ◌++◌, leb, ltb,
  ◌==◌, if◌then◌else◌,
}
use pico_dome.Base.Sort.{sort_by}
use pico_dome.Base.Result.{get_or}

pub record RetentionPolicy : Type 0 where
  pub data_type : String
  pub ttl_days : ℕ
  pub secure_delete : Bool
  pub max_size_mb : ℕ

pub record RetentionConfig : Type 0 where
  pub scan_results : RetentionPolicy
  pub audit_logs : RetentionPolicy
  pub baselines : RetentionPolicy

abbrev pub default_config : RetentionConfig
default_config = record {
  scan_results = record {
    data_type = "scan_results";
    ttl_days = 90;
    secure_delete = true;
    max_size_mb = 500;
  };
  audit_logs = record {
    data_type = "audit_logs";
    ttl_days = 365;
    secure_delete = false;
    max_size_mb = 200;
  };
  baselines = record {
    data_type = "baselines";
    ttl_days = 0;
    secure_delete = false;
    max_size_mb = 50;
  };
}

-- The configuration of one type, where a key may be missing.
pub record PolicyEntry : Type 0 where
  pub data_type : Option String
  pub ttl_days : Option ℕ
  pub secure_delete : Option Bool
  pub max_size_mb : Option ℕ

pub record ConfigData : Type 0 where
  pub scan_results : Option PolicyEntry
  pub audit_logs : Option PolicyEntry
  pub baselines : Option PolicyEntry

abbrev pub policy_from_entry : String → RetentionPolicy → Option PolicyEntry → RetentionPolicy
policy_from_entry key default none = default
policy_from_entry key default (some d) = record {
  data_type = get_or d.data_type key;
  ttl_days = get_or d.ttl_days 0;
  secure_delete = get_or d.secure_delete false;
  max_size_mb = get_or d.max_size_mb 0;
}

unfoldable pub config_from_dict : ConfigData → RetentionConfig
config_from_dict d = record {
  scan_results = policy_from_entry "scan_results" default_config.scan_results d.scan_results;
  audit_logs = policy_from_entry "audit_logs" default_config.audit_logs d.audit_logs;
  baselines = policy_from_entry "baselines" default_config.baselines d.baselines;
}

pub record DataFile : Type 0 where
  pub name : String
  pub mtime : ℕ
  pub size : ℕ

pub record CleanupStats : Type 0 where
  pub files_removed : ℕ
  pub bytes_freed : ℕ
  pub errors : List String

abbrev pub no_stats : CleanupStats
no_stats = record { files_removed = 0; bytes_freed = 0; errors = [] }

abbrev pub count_removed : DataFile → CleanupStats → CleanupStats
count_removed f stats = record stats {
  files_removed = stats.files_removed + 1;
  bytes_freed = stats.bytes_freed + f.size;
}

-- `_dir_stats`, the bytes
unfoldable pub total_bytes : List DataFile → ℕ
total_bytes [] = 0
total_bytes (f ∷ files) = f.size + total_bytes files

unfoldable pub older : DataFile → DataFile → Bool
older f g = leb f.mtime g.mtime

-- What a deletion leaves: nothing, if it succeeds. A failed `unlink` leaves the file as it was, and a failed
-- `secure_delete` a file of that name that may be overwritten or truncated, with a later time.
abbrev pub Deletes : Type 0
Deletes = DataFile → Option DataFile

module _ (deletes : Deletes) where
  -- The first loop: what is left, and the counts. With `secure_delete` a file counts as removed whether or
  -- not its deletion succeeded.
  unfoldable pub remove_expired :
      RetentionPolicy → ℕ → List DataFile → CleanupStats → List DataFile × CleanupStats
  remove_expired p cutoff [] stats = ([], stats)
  remove_expired p cutoff (f ∷ files) stats =
      let (counted, after_count) = remove_expired p cutoff files (count_removed f stats) in
      let (kept, after_error) =
        remove_expired p cutoff files (record stats { errors = stats.errors ++ (f.name ∷ []) }) in
      let (rest, after) = remove_expired p cutoff files stats in
      if ltb f.mtime cutoff
      then elim (deletes f) [
        | none ↦ (counted, after_count)
        | some g ↦ if p.secure_delete then (g ∷ counted, after_count) else (f ∷ kept, after_error)
      ]
      else (f ∷ rest, after)

  -- The second loop, over the files from the oldest: it ends once the bytes that are left are within the
  -- bound. A file that cannot be deleted counts with `secure_delete` only.
  unfoldable pub remove_oldest :
      RetentionPolicy → ℕ → ℕ → List DataFile → CleanupStats → List DataFile × CleanupStats
  remove_oldest p max_bytes total [] stats = ([], stats)
  remove_oldest p max_bytes total (f ∷ files) stats =
      let (counted, after_count) =
        remove_oldest p max_bytes (total - f.size) files (count_removed f stats) in
      let (kept, after) = remove_oldest p max_bytes total files stats in
      if leb total max_bytes then (f ∷ files, stats) else elim (deletes f) [
        | none ↦ (counted, after_count)
        | some g ↦ if p.secure_delete then (g ∷ counted, after_count) else (f ∷ kept, after)
      ]

  -- The quota, of a directory with these files.
  unfoldable pub apply_quota :
      RetentionPolicy → List DataFile → CleanupStats → List DataFile × CleanupStats
  unfolding remove_oldest total_bytes sort_by older
  apply_quota p files stats =
      let max_bytes = p.max_size_mb * 1048576 in
      if p.max_size_mb == 0
      then (files, stats)
      else if leb (total_bytes files) max_bytes
      then (files, stats)
      else remove_oldest p max_bytes (total_bytes files) (sort_by older files) stats

  -- The files are given as `none` if the directory is missing.
  unfoldable pub cleanup_directory :
      RetentionPolicy → ℕ → Option (List DataFile) → Option (List DataFile) × CleanupStats
  unfolding remove_expired apply_quota
  cleanup_directory p now none = (none, no_stats)
  cleanup_directory p now (some files) =
      if p.ttl_days == 0
      then (some files, no_stats)
      else (let (left, stats) = remove_expired p (now - p.ttl_days * 86400) files no_stats in
          let (kept, all) = apply_quota p left stats in (some kept, all))

  -- `run_cleanup`: only the scan results are cleaned.
  unfoldable pub run_cleanup :
      RetentionConfig → ℕ → Option (List DataFile) → Option (List DataFile) × CleanupStats
  unfolding cleanup_directory
  run_cleanup c now scans = cleanup_directory c.scan_results now scans
