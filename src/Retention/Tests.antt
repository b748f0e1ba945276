-- ===== src/Retention/Tests.antt =====
-- Sample files with a time to live of a day, and the theorems at them. A unit of time is a second.
use pico_dome.Base.{
  ℕ, ◌+◌, ◌≤◌, String, none, some, true, List, [], ◌∷◌, Memᴰ, All, ◌≡◌, ◌≢◌, ◌⊎◌, refl, arith,
}
use pico_dome.Retention.Manager.{
  RetentionPolicy, Deletes, DataFile, CleanupStats, no_stats, total_bytes, remove_expired,
  cleanup_directory,
}
use pico_dome.Retention.Cleanup.{
  left_of, count_expired, cleanup_directory_kept, remove_expired_counts_failed,
}

abbrev policy : RetentionPolicy
policy = record { data_type = "scan_results"; ttl_days = 1; secure_delete = true; max_size_mb = 1 }

abbrev file : String → ℕ → ℕ → DataFile
file name mtime size = record { name = name; mtime = mtime; size = size }

abbrev files : List DataFile
files = file "new" 99000 800000 ∷ file "gone" 100 5 ∷ file "old" 90000 800000 ∷ []

-- One file has expired, and of the others the older is over the quota.
cleanup_run : cleanup_directory (λ f. none) policy 100000 (some files) ≡ (
  some (file "new" 99000 800000 ∷ []),
  record { files_removed = 2; bytes_freed = 800005; errors = [] },
)
unfolding cleanup_directory
cleanup_run = refl

cleanup_directory_kept_example :
    (left : List DataFile) × (stats : CleanupStats) × (cleanup_directory
        (λ f. none)
        policy
        100000
        (some files)
      ≡ (some left, stats))
    × ((g : DataFile) → Memᴰ g left → Memᴰ g files × (13600 ≤ g.mtime))
    × (◌≢◌ {A = ℕ} 1 0 → total_bytes left ≤ 1048576)
    × (total_bytes left + stats.bytes_freed ≡ total_bytes files)
    × ((g : DataFile)
        → Memᴰ g files
        → 13600 ≤ g.mtime
        → Memᴰ g left ⊎ All (λ h. g.mtime ≤ h.mtime) left)
cleanup_directory_kept_example =
    cleanup_directory_kept (λ f. none) policy (λ f. refl) 100000 files (λ e. ground (arith, e))

-- The deletion of the expired file fails after it was truncated.
abbrev truncated : Deletes
truncated f = some (record f { mtime = 100000; size = 0 })

remove_expired_counts_failed_example :
    let (left, counted) = remove_expired truncated policy 13600 files no_stats in
    (left ≡ left_of truncated 13600 files) × (counted ≡ count_expired 13600 files no_stats)
remove_expired_counts_failed_example =
    remove_expired_counts_failed truncated policy 13600 files no_stats refl
