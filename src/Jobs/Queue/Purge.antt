-- ===== src/Jobs/Queue/Purge.antt =====
-- ratelimit/queue.py: what `purge_expired` removes, and that it finds every id.
use pico_dome.Base.{
  ℕ, ◌+◌, String, none, some, Bool, true, false, not, List, [], ◌∷◌, map, Memᴰ, length, filter, ◌≡◌,
  ◌≢◌, refl, inl, inr, arith, Bool-cases, Option-cases, All, All-mem, All-of_mem, length-filter-le,
  mem_of_mem-filter, mem-filter, ap,
}
use pico_dome.Base.Text.{eq_refl, contains}
use pico_dome.Base.Dict.{lookup}
use pico_dome.Base.Perms.{length-perm, mem-perm}
use pico_dome.Jobs.Heap.{QueuedJob, Heapq}
use pico_dome.Jobs.Queue.{expired, JobQueue, set_status, expire, is_expired, purge_expired}
use pico_dome.Jobs.Queue.Invariant.{IsKnown, IsQueue}

-- The queues agree but for the statuses and the count of the expired jobs, which has risen by `n`.
abbrev IsExpiredBy : ℕ → JobQueue → JobQueue → Type 0
IsExpiredBy n q q' =
    (q'.heap ≡ q.heap)
    × (q'.jobs ≡ q.jobs)
    × (q'.max_size ≡ q.max_size)
    × (q'.stats.expired ≡ q.stats.expired + n)

contains_of_mem : {x : String} (xs : List String) → Memᴰ x xs → contains xs x ≡ true
unfolding contains
contains_of_mem [] m = elim m [ ]
contains_of_mem {x} (y ∷ xs) (Memᴰ.head e) = rw (e, eq_refl y) refl
contains_of_mem {x} (y ∷ xs) (Memᴰ.tail m) = rw (contains_of_mem xs m) (ground arith)

module _ {ℓ ℓ'} {A : Type ℓ} {B : Type ℓ'} (f : A → B) where
  length-map : (xs : List A) → length (map f xs) ≡ length xs
  length-map [] = refl
  length-map (x ∷ xs) = omega (arith, length-map xs)

  All-map {κ} : (P : B → Type κ) (xs : List A) → All (λ x. P (f x)) xs → All P (map f xs)
  All-map P [] h = tt
  All-map P (x ∷ xs) h = (h.0, All-map P xs h.1)

  mem-map : {x : A} (xs : List A) → Memᴰ x xs → Memᴰ (f x) (map f xs)
  mem-map [] m = elim m [ ]
  mem-map (y ∷ xs) (Memᴰ.head e) = Memᴰ.head (ap f e)
  mem-map (y ∷ xs) (Memᴰ.tail m) = Memᴰ.tail (mem-map xs m)

module _ (heapq : Heapq) where
  -- Each id of the list is in the dictionary.
  expire_lem :
      (ids : List String) (q : JobQueue)
      → All (λ i. lookup i q.jobs ≢ none) ids
      → (q' : JobQueue) × (expire heapq ids q ≡ some q') × IsExpiredBy (length ids) q q'
  unfolding expire set_status
  expire_lem [] q h = (q, refl, (refl, refl, refl, omega arith))
  expire_lem (i ∷ ids) q h = elim (Option-cases (lookup i q.jobs)) [
    | inl e ↦ absurd (h.0 e)
    | inr (j, e) ↦
        let q1 = set_status j expired q in
        let q2 : JobQueue = record q1 {
          stats = record q1.stats { expired = q1.stats.expired + 1 };
        } in
        let (q', r, (heap, jobs, size, count)) = expire_lem ids q2 h.1 in
        (q', rw (e, expire) r, (heap, jobs, size, omega (arith, count)))
  ]

  -- In a queue whose invariant holds `purge_expired` fails for no id. It keeps the invariant, counts the
  -- jobs that wait in the heap since before the cut-off, and leaves only jobs in the heap that were
  -- there and that are none of these.
  pub purge_expired-IsQueue :
      (now max_age : ℕ) (q : JobQueue)
      → IsQueue heapq q
      → (q' : JobQueue) × (n : ℕ) × (purge_expired heapq now max_age q ≡ some (q', n))
        × IsQueue heapq q'
        × (n ≡ length (filter (is_expired heapq now max_age q) q.heap))
        × (q'.max_size ≡ q.max_size)
        × (q'.stats.expired ≡ q.stats.expired + n)
        × ((k : QueuedJob)
            → Memᴰ k q'.heap
            → Memᴰ k q.heap × (is_expired heapq now max_age q k ≡ false))
  unfolding purge_expired
  purge_expired-IsQueue now max_age q h =
      let (q1, r, (heap, jobs, size, count)) = expire_lem ids q known in
      (
        purged q1,
        length ids,
        rw (r, purge_expired) refl,
        (
          heapq.heapify-IsHeap (kept q1),
          omega (
            arith,
            length-perm (heapq.heapify-perm (kept q1)),
            length-filter-le stays q1.heap,
            ap length heap,
            size,
            h.1,
          ),
          All-of_mem (IsKnown heapq (purged q1)) (purged q1).heap
              (λ k m. rw jobs (All-mem (IsKnown heapq q) h.2 (rw heap at (from_kept q1 k m).0))),
        ),
        length-map (λ j. j.job_id) old,
        size,
        count,
        λ k m. let (n, s) = from_kept q1 k m in (rw heap at n, not_old k (rw heap at n) s),
      )
    where
      old : List QueuedJob
      old = filter (is_expired heapq now max_age q) q.heap

      ids : List String
      ids = map (λ j. j.job_id) old

      known : All (λ i. lookup i q.jobs ≢ none) ids
      known =
          All-map (λ j. j.job_id) (λ i. lookup i q.jobs ≢ none) old
            (All-of_mem (IsKnown heapq q) old (λ k m.
              All-mem (IsKnown heapq q) h.2
                (mem_of_mem-filter (is_expired heapq now max_age q) q.heap m).0))

      stays : QueuedJob → Bool
      stays j = not (contains ids j.job_id)

      kept : JobQueue → List QueuedJob
      kept q1 = filter stays q1.heap

      purged : JobQueue → JobQueue
      purged q1 = record q1 { heap = heapq.heapify (kept q1) }

      from_kept :
          (q1 : JobQueue) (k : QueuedJob)
          → Memᴰ k (purged q1).heap
          → Memᴰ k q1.heap × (stays k ≡ true)
      from_kept q1 k m = mem_of_mem-filter stays q1.heap (mem-perm (heapq.heapify-perm (kept q1)) m)

      clash : {b : Bool} → b ≡ true → not b ≡ true → ⊥
      clash e s = ground arith

      not_old :
          (k : QueuedJob)
          → Memᴰ k q.heap
          → stays k ≡ true
          → is_expired heapq now max_age q k ≡ false
      not_old k m s = elim (Bool-cases (is_expired heapq now max_age q k)) [
        | inr e ↦ e
        | inl e ↦
            let member =
              mem-map (λ j. j.job_id) old
                (mem-filter (is_expired heapq now max_age q) q.heap m e) in
            absurd (clash (contains_of_mem ids member) s)
      ]
