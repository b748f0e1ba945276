-- ===== src/Jobs/Queue/Invariant.antt =====
-- ratelimit/queue.py: what `enqueue` and its parts keep true of a queue.
use mathlib.Core.Path.{subst}
use mathlib.Core.List.Permᴰ
use pico_dome.Base.{
  ℕ, ◌≤◌, ◌<◌, String, none, false, List, ◌∷◌, length, ◌≡◌, ◌≢◌, ◌⊎◌, inl, inr, arith, Bool-cases,
  All, All-mem, All-of_mem, mem-cons_cases, leb, sym, ap, List-cases,
}
use pico_dome.Base.Text.{eq_iff}
use pico_dome.Base.Dict.{Dict, lookup, insert, lookup-insert}
use pico_dome.Base.Perms.{length-perm, mem-perm, All-perm}
use pico_dome.Jobs.Heap.{JobPriority, low, priority_value, QueuedJob, Heapq}
use pico_dome.Jobs.Queue.{
  JobQueue, set_status, count_dropped, evict_lowest, add_job, enqueue, is_full,
}
use pico_dome.Jobs.Queue.Evict.{IsEvicted, evict_lowest-IsEvicted, evict_lowest_nil}
use pico_dome.Jobs.Queue.Order.{IsAdded, add_job-IsAdded}

module _ (heapq : Heapq) where
  abbrev pub IsKnown : JobQueue → QueuedJob → Type 0
  IsKnown q j = lookup j.job_id q.jobs ≢ none

  -- The heap is one, is not larger than allowed, and holds jobs whose ids are in the dictionary.
  abbrev pub IsQueue : JobQueue → Type 0
  IsQueue q = heapq.IsHeap q.heap × (length q.heap ≤ q.max_size) × All (IsKnown q) q.heap

  evict_lowest-IsQueue : (q : JobQueue) → IsQueue q → IsQueue (evict_lowest heapq q)
  unfolding count_dropped set_status
  evict_lowest-IsQueue q h = elim (List-cases q.heap) [
    | inl e ↦ subst IsQueue (sym (evict_lowest_nil heapq q e)) h
    | inr (j, rest, e) ↦ kept (evict_lowest-IsEvicted heapq q e)
  ]
    where
      kept :
          (w : QueuedJob) × IsEvicted heapq q w (evict_lowest heapq q)
          → IsQueue (evict_lowest heapq q)
      kept (w, (perm, worst, heap, same)) =
          let size = length-perm perm in
          let bound : (evict_lowest heapq q).max_size ≡ q.max_size = ap (λ x. x.max_size) same in
          let jobs : (evict_lowest heapq q).jobs ≡ q.jobs = ap (λ x. x.jobs) same in
          let known : All (IsKnown q) (w ∷ (evict_lowest heapq q).heap) =
            All-perm (IsKnown q) (Permᴰ.symm perm) h.2 in
          (heap, omega (arith, size, bound, h.1), rw jobs known.1)

  module _ (now : ℕ) (job_id : String) (command : List String) (actor : String)
      (priority : JobPriority) (metadata : Dict String) where
    IsAdded-IsQueue :
        (q q' : JobQueue) (job : QueuedJob)
        → IsAdded heapq now job_id command actor priority metadata q job q'
        → IsQueue q
        → length q.heap < q.max_size
        → IsQueue q'
    unfolding set_status
    IsAdded-IsQueue q q' job (perm, heap, job_is, q'_is) h room =
        let bound : q'.max_size ≡ q.max_size = ap (λ x. x.max_size) q'_is in
        (
          heap,
          omega (arith, length-perm perm, bound, room),
          All-of_mem (IsKnown q') q'.heap (λ k m. elim (mem-cons_cases (mem-perm perm m)) [
            | inl e ↦ rw e (known job (inl id))
            | inr n ↦ known k (inr (All-mem (IsKnown q) h.2 n))
          ]),
        )
      where
        jobs : q'.jobs ≡ insert job_id job q.jobs
        jobs = ap (λ x. x.jobs) q'_is

        id : job.job_id ≡ job_id
        id = ap (λ x. x.job_id) job_is

        known : (k : QueuedJob) → (k.job_id ≡ job_id) ⊎ IsKnown q k → IsKnown q' k
        known k c e =
            let found : lookup k.job_id (insert job_id job q.jobs) ≡ none = rw jobs at e in
            let law = lookup-insert job_id k.job_id job q.jobs in
            elim c [
              | inl same ↦ ground (arith, law, eq_iff job_id k.job_id, same)
              | inr old ↦ old (ground (arith, law))
            ]

    add_job-IsQueue :
        (q : JobQueue)
        → IsQueue q
        → length q.heap < q.max_size
        → IsQueue (add_job heapq now job_id command actor priority metadata q).0
    add_job-IsQueue q h room =
        let (job, q', r, added) =
          add_job-IsAdded heapq now job_id command actor priority metadata q h.0 in
        subst IsQueue (sym (ap (λ x. x.0) r)) (IsAdded-IsQueue q q' job added h room)

    pub enqueue-IsQueue :
        (q : JobQueue)
        → IsQueue q
        → IsQueue (enqueue heapq now job_id command actor priority metadata q).0
    unfolding enqueue count_dropped
    enqueue-IsQueue q h = elim (Bool-cases (is_full q)) [
      | inr room ↦ rw room (add_job-IsQueue q h (has_space q room))
      | inl full ↦ rw full (elim (Bool-cases (leb (priority_value low) (priority_value priority))) [
        | inl l ↦ rw l h
        | inr l ↦
            let h' = evict_lowest-IsQueue q h in
            rw l (elim (Bool-cases (is_full (evict_lowest heapq q))) [
              | inl f ↦ rw f h'
              | inr f ↦
                  rw f
                    (add_job-IsQueue (evict_lowest heapq q) h' (has_space (evict_lowest heapq q) f))
            ])
      ])
    ]
      where
        has_space : (q : JobQueue) → is_full q ≡ false → length q.heap < q.max_size
        has_space q e = ground arith
