-- ===== src/Jobs/Queue/Pending.antt =====
-- ratelimit/queue.py: what `list_pending` lists.
use pico_dome.Base.{
  ℕ, zero, suc, ◌≤◌, Bool, true, List, [], ◌∷◌, Memᴰ, length, take, filter, ◌≡◌, ◌⊎◌, refl, inl,
  inr, arith, All, All-mem, All-of_mem, mem-filter, mem_of_mem-filter, mem_of_mem-take,
}
use pico_dome.Base.Dict.{values}
use pico_dome.Base.Sort.{sort_by, IsSorted, mem_of_mem-sort_by, mem-sort_by}
use pico_dome.Jobs.Heap.{QueuedJob, not_after, sort_jobs-IsSorted, Heapq}
use pico_dome.Jobs.Queue.{JobQueue, list_pending, is_queued}

module _ {ℓ} {A : Type ℓ} where
  length-take-le : (n : ℕ) (xs : List A) → length (take n xs) ≤ n
  length-take-le zero xs = omega arith
  length-take-le (suc n) [] = omega arith
  length-take-le (suc n) (x ∷ xs) = omega (arith, length-take-le n xs)

  module _ (leq : A → A → Bool) where
    take-IsSorted : (n : ℕ) (xs : List A) → IsSorted leq xs → IsSorted leq (take n xs)
    take-IsSorted zero xs s = tt
    take-IsSorted (suc n) [] s = tt
    take-IsSorted (suc n) (x ∷ xs) s = (
      All-of_mem (λ y. leq x y ≡ true) (take n xs)
          (λ y m. All-mem (λ y. leq x y ≡ true) s.0 (mem_of_mem-take n xs m)),
      take-IsSorted n xs s.1,
    )

    -- What is not taken comes after all that is.
    mem-take_cases :
        {x : A} (n : ℕ) (xs : List A)
        → IsSorted leq xs
        → Memᴰ x xs
        → Memᴰ x (take n xs) ⊎ ((length (take n xs) ≡ n) × All (λ y. leq y x ≡ true) (take n xs))
    mem-take_cases zero xs s m = inr (refl, tt)
    mem-take_cases (suc n) [] s m = elim m [ ]
    mem-take_cases (suc n) (y ∷ xs) s (Memᴰ.head e) = inl (Memᴰ.head e)
    mem-take_cases (suc n) (y ∷ xs) s (Memᴰ.tail m) = elim (mem-take_cases n xs s.1 m) [
      | inl k ↦ inl (Memᴰ.tail k)
      | inr (l, h) ↦ inr (omega (arith, l), (All-mem (λ z. leq y z ≡ true) s.0 m, h))
    ]

-- The jobs of the dictionary that wait.
abbrev pub IsWaiting : JobQueue → QueuedJob → Type 0
IsWaiting q j = Memᴰ j (values q.jobs) × (is_queued (q.status j.ref) ≡ true)

-- `list_pending` lists waiting jobs only, in order and at most `limit` of them, and a waiting job that
-- is not listed comes after all that are, which then number `limit`.
pub list_pending_first :
    (heapq : Heapq) (limit : ℕ) (q : JobQueue)
    → let pending = list_pending heapq limit q in
      IsSorted not_after pending
      × (length pending ≤ limit)
      × ((j : QueuedJob) → Memᴰ j pending → IsWaiting q j)
      × ((j : QueuedJob)
          → IsWaiting q j
          → Memᴰ j pending ⊎ ((length pending ≡ limit) × All (λ k. not_after k j ≡ true) pending))
unfolding list_pending
list_pending_first heapq limit q = (
  take-IsSorted not_after limit sorted (sort_jobs-IsSorted waiting),
  length-take-le limit sorted,
  λ j m.
      let (n, h) =
        mem_of_mem-filter test (values q.jobs)
          (mem_of_mem-sort_by not_after waiting (mem_of_mem-take limit sorted m)) in
      (n, h),
  λ j w.
      mem-take_cases not_after limit sorted (sort_jobs-IsSorted waiting)
        (mem-sort_by not_after waiting (mem-filter test (values q.jobs) w.0 w.1)),
)
  where
    test : QueuedJob → Bool
    test j = is_queued (q.status j.ref)

    waiting : List QueuedJob
    waiting = filter test (values q.jobs)

    sorted : List QueuedJob
    sorted = sort_by not_after waiting
