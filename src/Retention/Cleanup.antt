-- ===== src/Retention/Cleanup.antt =====
-- retention/manager.py: which files a cleanup keeps, where deletion succeeds, and what it counts where not.
use pico_dome.Base.{
  ℕ, ◌+◌, ◌-◌, ◌*◌, ◌≤◌, Option, none, some, Bool, true, false, not, List, [], ◌∷◌, Memᴰ, All,
  All-mem, leb, ltb, ◌==◌, filter, mem-filter, mem_of_mem-filter, mem-cons_cases, All-of_mem, ◌≡◌,
  ◌≢◌, ◌⊎◌, refl, inl, inr, arith, ap, ◌∙◌, Bool-cases, Option-cases, if◌then◌else◌,
}
use pico_dome.Base.Sort.{
  insert_by, sort_by, IsSorted, sort_by-IsSorted, mem_of_mem-sort_by, mem-sort_by,
}
use pico_dome.Retention.Manager.{
  RetentionPolicy, Deletes, DataFile, CleanupStats, no_stats, count_removed, total_bytes, older,
  remove_expired, remove_oldest, apply_quota, cleanup_directory,
}

older_iff : (f g : DataFile) → older f g ≡ true → f.mtime ≤ g.mtime
unfolding older
older_iff f g e = ground (arith, e)

older_total : (f g : DataFile) → older f g ≡ false → older g f ≡ true
unfolding older
older_total f g e = ground (arith, e)

older_trans : (f g h : DataFile) → older f g ≡ true → older g h ≡ true → older f h ≡ true
unfolding older
older_trans f g h e d = ground (arith, e, d)

total_bytes-insert_by :
    (f : DataFile) (files : List DataFile)
    → total_bytes (insert_by older f files) ≡ f.size + total_bytes files
unfolding insert_by total_bytes
total_bytes-insert_by f [] = refl
total_bytes-insert_by f (g ∷ files) = ground (arith, total_bytes-insert_by f files)

total_bytes-sort_by :
    (files : List DataFile) → total_bytes (sort_by older files) ≡ total_bytes files
unfolding sort_by total_bytes
total_bytes-sort_by [] = refl
total_bytes-sort_by (f ∷ files) =
    total_bytes-insert_by f (sort_by older files) ∙ ap (λ n. f.size + n) (total_bytes-sort_by files)

abbrev is_fresh : ℕ → DataFile → Bool
is_fresh cutoff f = not (ltb f.mtime cutoff)

module _ (deletes : Deletes) (p : RetentionPolicy)
    (reliable : (f : DataFile) → deletes f ≡ none) where
  -- The first loop leaves the files that have not expired, and counts the bytes of the others.
  remove_expired_lem :
      (cutoff : ℕ) (files : List DataFile) (stats : CleanupStats)
      → let (left, stats') = remove_expired deletes p cutoff files stats in
        (left ≡ filter (is_fresh cutoff) files)
        × (total_bytes left + stats'.bytes_freed ≡ total_bytes files + stats.bytes_freed)
  unfolding remove_expired filter total_bytes
  remove_expired_lem cutoff [] stats = (refl, refl)
  remove_expired_lem cutoff (f ∷ files) stats = elim (Bool-cases (ltb f.mtime cutoff)) [
    | inl b ↦
        let (kept, sum) = remove_expired_lem cutoff files (count_removed f stats) in
        rw (b, reliable f) (kept, omega (arith, sum))
    | inr b ↦
        let (kept, sum) = remove_expired_lem cutoff files stats in
        rw b (ap (λ x. f ∷ x) kept, omega (arith, sum))
  ]

  -- The second loop, over files in order, leaves the last of them, as few as the bound asks for.
  remove_oldest_lem :
      (max_bytes : ℕ) (files : List DataFile) (stats : CleanupStats)
      → IsSorted older files
      → let (left, stats') = remove_oldest deletes p max_bytes (total_bytes files) files stats in
        (total_bytes left ≤ max_bytes)
        × (total_bytes left + stats'.bytes_freed ≡ total_bytes files + stats.bytes_freed)
        × ((g : DataFile) → Memᴰ g left → Memᴰ g files)
        × ((g : DataFile) → Memᴰ g files → Memᴰ g left ⊎ All (λ h. older g h ≡ true) left)
  unfolding remove_oldest total_bytes
  remove_oldest_lem max_bytes [] stats s = (omega arith, refl, λ g m. m, λ g m. inl m)
  remove_oldest_lem max_bytes (f ∷ files) stats s =
      elim (Bool-cases (leb (f.size + total_bytes files) max_bytes)) [
        | inl b ↦ rw b (ground (arith, b), refl, λ g m. m, λ g m. inl m)
        | inr b ↦
            let left =
              (remove_oldest deletes p max_bytes (total_bytes files) files
                (count_removed f stats)).0 in
            let rest : f.size + total_bytes files - f.size ≡ total_bytes files = omega arith in
            let (small, sum, old, new) =
              remove_oldest_lem max_bytes files (count_removed f stats) s.1 in
            rw (b, reliable f, rest)
              (
                small,
                omega (arith, sum),
                λ g m. Memᴰ.tail (old g m),
                λ g m. elim (mem-cons_cases m) [
                  | inl e ↦ inr (
                      All-of_mem (λ h. older g h ≡ true) left
                        (λ h k. rw e (All-mem (λ h. older f h ≡ true) s.0 (old h k))))
                  | inr n ↦ new g n
                ],
              )
      ]

  -- What a cleanup keeps, of files with a quota.
  abbrev pub IsKept : List DataFile → CleanupStats → List DataFile → CleanupStats → Type 0
  IsKept files stats left stats' =
      (p.max_size_mb ≢ 0 → total_bytes left ≤ p.max_size_mb * 1048576)
      × (total_bytes left + stats'.bytes_freed ≡ total_bytes files + stats.bytes_freed)
      × ((g : DataFile) → Memᴰ g left → Memᴰ g files)
      × ((g : DataFile) → Memᴰ g files → Memᴰ g left ⊎ All (λ h. g.mtime ≤ h.mtime) left)

  apply_quota_lem :
      (files : List DataFile) (stats : CleanupStats)
      → let (left, stats') = apply_quota deletes p files stats in IsKept files stats left stats'
  unfolding apply_quota
  apply_quota_lem files stats = elim (Bool-cases (p.max_size_mb == 0)) [
    | inl b ↦ rw b (λ n. absurd (n (ground (arith, b))), refl, λ g m. m, λ g m. inl m)
    | inr b ↦ elim (Bool-cases (leb (total_bytes files) (p.max_size_mb * 1048576))) [
      | inl c ↦ rw (b, c) (λ n. ground (arith, c), refl, λ g m. m, λ g m. inl m)
      | inr c ↦
          let sorted = sort_by older files in
          let same = total_bytes-sort_by files in
          let (small, sum, old, new) =
            remove_oldest_lem (p.max_size_mb * 1048576) sorted stats
              (sort_by-IsSorted older older_total older_trans files) in
          let left =
            (remove_oldest deletes p (p.max_size_mb * 1048576) (total_bytes sorted) sorted
              stats).0 in
          rw (b, c, ← same)
            (
              λ n. small,
              sum,
              λ g m. mem_of_mem-sort_by older files (old g m),
              λ g m. elim (new g (mem-sort_by older files m)) [
                | inl k ↦ inl k
                | inr a ↦ inr (
                    All-of_mem (λ h. g.mtime ≤ h.mtime) left
                      (λ h k. older_iff g h (All-mem (λ h. older g h ≡ true) a k)))
              ],
            )
    ]
  ]

  -- A cleanup with a time to live, where each deletion succeeds, keeps no file that has expired and, if
  -- there is a quota, no more bytes than it. It counts the bytes of the files that it removes, and a file
  -- that has not expired is removed only if it is no newer than any that is kept.
  pub cleanup_directory_kept :
      (now : ℕ) (files : List DataFile)
      → p.ttl_days ≢ 0
      → (left : List DataFile) × (stats : CleanupStats) × (cleanup_directory deletes p now
            (some files)
          ≡ (some left, stats))
        × ((g : DataFile) → Memᴰ g left → Memᴰ g files × (now - p.ttl_days * 86400 ≤ g.mtime))
        × (p.max_size_mb ≢ 0 → total_bytes left ≤ p.max_size_mb * 1048576)
        × (total_bytes left + stats.bytes_freed ≡ total_bytes files)
        × ((g : DataFile)
            → Memᴰ g files
            → now - p.ttl_days * 86400 ≤ g.mtime
            → Memᴰ g left ⊎ All (λ h. g.mtime ≤ h.mtime) left)
  unfolding cleanup_directory
  cleanup_directory_kept now files ttl =
      let cutoff = now - p.ttl_days * 86400 in
      let (fresh, stats) = remove_expired deletes p cutoff files no_stats in
      let (same, sum) = remove_expired_lem cutoff files no_stats in
      let (small, sum', old, new) = apply_quota_lem fresh stats in
      let never : p.ttl_days == 0 ≡ false = ground (arith, ttl) in
      (
        (apply_quota deletes p fresh stats).0,
        (apply_quota deletes p fresh stats).1,
        rw never refl,
        λ g m. of_filter cutoff g same (old g m),
        small,
        omega (arith, sum, sum'),
        λ g m l. new g (to_filter cutoff g same m l),
      )
    where
      of_filter :
          (cutoff : ℕ) (g : DataFile) {l : List DataFile}
          → l ≡ filter (is_fresh cutoff) files
          → Memᴰ g l
          → Memᴰ g files × (cutoff ≤ g.mtime)
      of_filter cutoff g e m =
          let (n, h) = mem_of_mem-filter (is_fresh cutoff) files (rw e at m) in
          (n, ground (arith, h))

      to_filter :
          (cutoff : ℕ) (g : DataFile) {l : List DataFile}
          → l ≡ filter (is_fresh cutoff) files
          → Memᴰ g files
          → cutoff ≤ g.mtime
          → Memᴰ g l
      to_filter cutoff g e m l = rw e (mem-filter (is_fresh cutoff) files m (ground (arith, l)))

-- The numbers that the first loop counts for each expired file.
abbrev pub count_expired : ℕ → List DataFile → CleanupStats → CleanupStats
count_expired cutoff [] stats = stats
count_expired cutoff (f ∷ files) stats =
    count_expired cutoff files (if ltb f.mtime cutoff then count_removed f stats else stats)

-- What a deletion leaves, if anything, before the rest.
abbrev pub cons_some : Option DataFile → List DataFile → List DataFile
cons_some none rest = rest
cons_some (some g) rest = g ∷ rest

-- The files that have not expired, and what the deletions leave of the others.
abbrev pub left_of : Deletes → ℕ → List DataFile → List DataFile
left_of deletes cutoff [] = []
left_of deletes cutoff (f ∷ files) =
    let rest = left_of deletes cutoff files in
    if ltb f.mtime cutoff then cons_some (deletes f) rest else f ∷ rest

-- With secure deletion, the first loop counts each expired file and its bytes as removed, and reports no
-- error, whichever of the deletions succeed; of each file whose deletion fails, what it leaves stays.
pub remove_expired_counts_failed :
    (deletes : Deletes) (p : RetentionPolicy) (cutoff : ℕ) (files : List DataFile)
    (stats : CleanupStats)
    → p.secure_delete ≡ true
    → let (left, counted) = remove_expired deletes p cutoff files stats in
      (left ≡ left_of deletes cutoff files) × (counted ≡ count_expired cutoff files stats)
unfolding remove_expired
remove_expired_counts_failed deletes p cutoff [] stats s = (refl, refl)
remove_expired_counts_failed deletes p cutoff (f ∷ files) stats s =
    elim (Bool-cases (ltb f.mtime cutoff)) [
      | inr b ↦
          let (left, same) = remove_expired_counts_failed deletes p cutoff files stats s in
          rw b (ap (λ x. f ∷ x) left, same)
      | inl b ↦
          let (left, same) =
            remove_expired_counts_failed deletes p cutoff files (count_removed f stats) s in
          elim (Option-cases (deletes f)) [
            | inl e ↦ rw (b, e) (left, same)
            | inr (g, e) ↦ rw (b, e, s) (ap (λ x. g ∷ x) left, same)
          ]
    ]
