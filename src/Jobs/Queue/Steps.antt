-- ===== src/Jobs/Queue/Steps.antt =====
-- ratelimit/queue.py: the calls of a queue as a step relation, and what every reachable queue
-- satisfies.
use mathlib.Core.Path.{subst}
use mathlib.Core.List.Permᴰ
use pico_dome.Base.{
  ℕ, ◌∙◌, String, Option, some, List, ◌∷◌, ◌≡◌, refl, inl, inr, arith, All, sym, ap,
}
use pico_dome.Base.Dict.{Dict}
use pico_dome.Base.Perms.{length-perm, All-perm}
use pico_dome.Jobs.Heap.{JobPriority, QueuedJob, Heapq}
use pico_dome.Jobs.Queue.{
  JobQueue, new_queue, set_status, count_dropped, evict_lowest, add_job, enqueue, dequeue, complete,
  fail, purge_expired,
}
use pico_dome.Jobs.Queue.Order.{IsDequeued, dequeue_first}
use pico_dome.Jobs.Queue.Invariant.{IsKnown, IsQueue, enqueue-IsQueue}
use pico_dome.Jobs.Queue.Purge.{purge_expired-IsQueue}

module _ (heapq : Heapq) where
  pub data Step : JobQueue → JobQueue → Type 0 where
    enqueue_step :
        (now : ℕ) (job_id : String) (command : List String) (actor : String)
        (priority : JobPriority) (metadata : Dict String) (q : JobQueue)
        → Step q (enqueue heapq now job_id command actor priority metadata q).0
    dequeue_step : (q : JobQueue) → Step q (dequeue heapq q).0
    complete_step :
        (job_id : String) (result : Option (Dict String)) (q : JobQueue)
        → Step q (complete heapq job_id result q)
    fail_step : (job_id : String) (q : JobQueue) → Step q (fail heapq job_id q)
    purge_step :
        (now max_age : ℕ) (q q' : JobQueue) (n : ℕ)
        → purge_expired heapq now max_age q ≡ some (q', n)
        → Step q q'

  -- The queues that calls can lead to from a new queue of that size, whatever the ids and the clock.
  pub data Reachable (max_size : ℕ) : JobQueue → Type 0 where
    new : Reachable max_size (new_queue max_size)
    step : {q q' : JobQueue} → Reachable max_size q → Step q q' → Reachable max_size q'

  IsDequeued-IsQueue :
      (q q' : JobQueue) (j : QueuedJob)
      → IsQueue heapq q
      → IsDequeued heapq q j q'
      → IsQueue heapq q'
  unfolding set_status
  IsDequeued-IsQueue q q' j h (perm, heap, first, same) =
      let bound : q'.max_size ≡ q.max_size = ap (λ x. x.max_size) same in
      let jobs : q'.jobs ≡ q.jobs = ap (λ x. x.jobs) same in
      let known : All (IsKnown heapq q) (j ∷ q'.heap) =
        All-perm (IsKnown heapq q) (Permᴰ.symm perm) h.2 in
      (heap, omega (arith, length-perm perm, bound, h.1), rw jobs known.1)

  dequeue-IsQueue : (q : JobQueue) → IsQueue heapq q → IsQueue heapq (dequeue heapq q).0
  dequeue-IsQueue q h = elim (dequeue_first heapq q h.0) [
    | inl (_, e) ↦ subst (IsQueue heapq) (sym (ap (λ x. x.0) e)) h
    | inr (j, q', e, d) ↦
        subst (IsQueue heapq) (sym (ap (λ x. x.0) e)) (IsDequeued-IsQueue q q' j h d)
  ]

  -- The parts of a queue on which the invariant rests.
  abbrev IsSameHeap : JobQueue → JobQueue → Type 0
  IsSameHeap q q' = (q'.heap ≡ q.heap) × (q'.max_size ≡ q.max_size) × (q'.jobs ≡ q.jobs)

  IsSameHeap-IsQueue : (q q' : JobQueue) → IsQueue heapq q → IsSameHeap q q' → IsQueue heapq q'
  IsSameHeap-IsQueue q q' h (heap, bound, jobs) = rw (heap, bound, jobs) h

  complete-IsSameHeap :
      (job_id : String) (result : Option (Dict String)) (q : JobQueue)
      → IsSameHeap q (complete heapq job_id result q)
  unfolding complete set_status
  complete-IsSameHeap job_id result q = ground arith

  fail-IsSameHeap : (job_id : String) (q : JobQueue) → IsSameHeap q (fail heapq job_id q)
  unfolding fail set_status
  fail-IsSameHeap job_id q = ground arith

  Step-IsQueue : (q q' : JobQueue) → IsQueue heapq q → Step q q' → IsQueue heapq q'
  Step-IsQueue q q' h (enqueue_step now job_id command actor priority metadata _) =
      enqueue-IsQueue heapq now job_id command actor priority metadata q h
  Step-IsQueue q q' h (dequeue_step _) = dequeue-IsQueue q h
  Step-IsQueue q q' h (complete_step job_id result _) =
      IsSameHeap-IsQueue q (complete heapq job_id result q) h (complete-IsSameHeap job_id result q)
  Step-IsQueue q q' h (fail_step job_id _) =
      IsSameHeap-IsQueue q (fail heapq job_id q) h (fail-IsSameHeap job_id q)
  Step-IsQueue q q' h (purge_step now max_age _ _ n e) =
      let (r, m, same, kept, _, _, _, _) = purge_expired-IsQueue heapq now max_age q h in
      subst (IsQueue heapq) (purged r same) kept
    where
      purged : (r : JobQueue) {m : ℕ} → purge_expired heapq now max_age q ≡ some (r, m) → r ≡ q'
      purged r same = cc

  enqueue-max_size :
      (now : ℕ) (job_id : String) (command : List String) (actor : String) (priority : JobPriority)
      (metadata : Dict String) (q : JobQueue)
      → (enqueue heapq now job_id command actor priority metadata q).0.max_size ≡ q.max_size
  unfolding enqueue add_job evict_lowest count_dropped set_status
  enqueue-max_size now job_id command actor priority metadata q = ground arith

  dequeue-max_size : (q : JobQueue) → (dequeue heapq q).0.max_size ≡ q.max_size
  unfolding dequeue set_status
  dequeue-max_size q = ground arith

  Step-max_size : (q q' : JobQueue) → IsQueue heapq q → Step q q' → q'.max_size ≡ q.max_size
  Step-max_size q q' h (enqueue_step now job_id command actor priority metadata _) =
      enqueue-max_size now job_id command actor priority metadata q
  Step-max_size q q' h (dequeue_step _) = dequeue-max_size q
  Step-max_size q q' h (complete_step job_id result _) = (complete-IsSameHeap job_id result q).1
  Step-max_size q q' h (fail_step job_id _) = (fail-IsSameHeap job_id q).1
  Step-max_size q q' h (purge_step now max_age _ _ n e) =
      let (r, m, same, kept, _, size, _, _) = purge_expired-IsQueue heapq now max_age q h in
      subst (λ x. x.max_size ≡ q.max_size) (purged r same) size
    where
      purged : (r : JobQueue) {m : ℕ} → purge_expired heapq now max_age q ≡ some (r, m) → r ≡ q'
      purged r same = cc

  -- After any calls the heap is one and is not larger than the maximum that the queue was made with,
  -- and the id of each job in it is in the dictionary.
  pub Reachable-IsQueue :
      (max_size : ℕ) (q : JobQueue)
      → Reachable max_size q
      → IsQueue heapq q × (q.max_size ≡ max_size)
  unfolding new_queue
  Reachable-IsQueue max_size q new = ((heapq.nil-IsHeap, omega arith, tt), refl)
  Reachable-IsQueue max_size q (step {q = q0} r s) =
      let (h, e) = Reachable-IsQueue max_size q0 r in
      (Step-IsQueue q0 q h s, Step-max_size q0 q h s ∙ e)
