-- ===== src/Jobs/Queue/Evict.antt =====
-- ratelimit/queue.py: which job `_evict_lowest` evicts.
use mathlib.Core.List.{Permᴰ}
use mathlib.Core.List.Permᴰ
use pico_dome.Base.{
  ℕ, suc, ◌+◌, true, false, List, [], ◌∷◌, Memᴰ, ◌≡◌, ◌⊎◌, refl, inl, inr, arith, Bool-cases,
  mem-cons_cases,
}
use pico_dome.Jobs.Heap.{QueuedJob, Heapq}
use pico_dome.Jobs.Queue.{
  dropped, JobQueue, is_worse, worst_from, pop_at, evict_lowest, set_status, count_dropped,
}

-- No job of the list is worse.
abbrev pub IsWorst : QueuedJob → List QueuedJob → Type 0
IsWorst w jobs = (j : QueuedJob) → Memᴰ j jobs → is_worse j w ≡ false

worse_refl : (j : QueuedJob) → is_worse j j ≡ false
unfolding is_worse
worse_refl j = ground arith

worse_asymm : (j k : QueuedJob) → is_worse j k ≡ true → is_worse k j ≡ false
unfolding is_worse
worse_asymm j k h = ground arith

not_worse_trans :
    (i j k : QueuedJob) → is_worse i j ≡ false → is_worse j k ≡ false → is_worse i k ≡ false
unfolding is_worse
not_worse_trans i j k h g = ground arith

IsWorst-cons :
    (w j : QueuedJob) (jobs : List QueuedJob)
    → is_worse j w ≡ false
    → IsWorst w jobs
    → IsWorst w (j ∷ jobs)
IsWorst-cons w j jobs h g k m = elim (mem-cons_cases m) [ inl e ↦ rw e h | inr n ↦ g k n ]

-- What the loop has found at its end: the job at the index, none of the jobs being worse.
abbrev IsFound : ℕ → ℕ × QueuedJob → List QueuedJob → ℕ × QueuedJob → Type 0
IsFound i (k, w) jobs (k', w') =
    ((k' ≡ k) × (w' ≡ w) × IsWorst w jobs)
    ⊎ ((n : ℕ) × (k' ≡ i + n)
        × Permᴰ jobs (w' ∷ pop_at n jobs)
        × (is_worse w w' ≡ false)
        × IsWorst w' jobs)

worst_from_lem :
    (jobs : List QueuedJob) (i k : ℕ) (w : QueuedJob)
    → IsFound i (k, w) jobs (worst_from i (k, w) jobs)
unfolding worst_from pop_at
worst_from_lem [] i k w = inl (refl, refl, λ j m. elim m [ ])
worst_from_lem (j ∷ jobs) i k w = elim (Bool-cases (is_worse j w)) [
  | inl q ↦ rw q (elim (worst_from_lem jobs (i + 1) i j) [
    | inl (a, b, h) ↦ inr (
      0,
      omega (arith, a),
      rw b (Permᴰ.refl (j ∷ jobs)),
      rw b (worse_asymm j w q),
      rw b (IsWorst-cons j j jobs (worse_refl j) h),
    )
    | inr (n, a, p, c, h) ↦ inr (
      suc n,
      omega (arith, a),
      behind n p,
      not_worse_trans w j (worst_from (i + 1) (i, j) jobs).1 (worse_asymm j w q) c,
      IsWorst-cons (worst_from (i + 1) (i, j) jobs).1 j jobs c h,
    )
  ])
  | inr q ↦ rw q (elim (worst_from_lem jobs (i + 1) k w) [
    | inl (a, b, h) ↦ inl (a, b, IsWorst-cons w j jobs q h)
    | inr (n, a, p, c, h) ↦ inr (
      suc n,
      omega (arith, a),
      behind n p,
      c,
      IsWorst-cons (worst_from (i + 1) (k, w) jobs).1 j jobs
          (not_worse_trans j w (worst_from (i + 1) (k, w) jobs).1 q c) h,
    )
  ])
]
  where
    behind :
        {x : QueuedJob} (n : ℕ)
        → Permᴰ jobs (x ∷ pop_at n jobs)
        → Permᴰ (j ∷ jobs) (x ∷ j ∷ pop_at n jobs)
    behind n p = Permᴰ.trans (Permᴰ.cons refl p) (Permᴰ.swap refl refl)

module _ (heapq : Heapq) where
  -- The job `w` is the newest of the least urgent ones, and has left the heap; its status and the count
  -- of the dropped jobs are all that has changed besides.
  abbrev pub IsEvicted : JobQueue → QueuedJob → JobQueue → Type 0
  IsEvicted q w q' =
      Permᴰ q.heap (w ∷ q'.heap)
      × IsWorst w q.heap
      × heapq.IsHeap q'.heap
      × (q' ≡ count_dropped (set_status w dropped (record q { heap = q'.heap })))

  pub evict_lowest-IsEvicted :
      (q : JobQueue) {j : QueuedJob} {rest : List QueuedJob}
      → q.heap ≡ j ∷ rest
      → (w : QueuedJob) × IsEvicted q w (evict_lowest heapq q)
  unfolding evict_lowest pop_at count_dropped set_status
  evict_lowest-IsEvicted q {j} {rest} e = rw e (
    (worst_from 1 (0, j) rest).1,
    (
      Permᴰ.trans found.0 (Permᴰ.cons refl (Permᴰ.symm (heapq.heapify-perm _))),
      found.1,
      heapq.heapify-IsHeap _,
      refl,
    ),
  )
    where
      found :
          let (i, w) = worst_from 1 (0, j) rest in
          Permᴰ (j ∷ rest) (w ∷ pop_at i (j ∷ rest)) × IsWorst w (j ∷ rest)
      found = elim (worst_from_lem rest 1 0 j) [
        | inl (a, b, h) ↦ rw (a, b) (Permᴰ.refl (j ∷ rest), IsWorst-cons j j rest (worse_refl j) h)
        | inr (n, a, p, c, h) ↦
            let next : (worst_from 1 (0, j) rest).0 ≡ suc n = omega (arith, a) in
            rw next (
              Permᴰ.trans (Permᴰ.cons refl p) (Permᴰ.swap refl refl),
              IsWorst-cons (worst_from 1 (0, j) rest).1 j rest c h,
            )
      ]

  pub evict_lowest_nil : (q : JobQueue) → q.heap ≡ [] → evict_lowest heapq q ≡ q
  unfolding evict_lowest
  evict_lowest_nil q e = ground arith
