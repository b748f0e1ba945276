-- ===== src/Jobs/Queue/Drain.antt =====
-- ratelimit/queue.py: a worker that takes jobs off a queue to which nothing is added.
use mathlib.Core.List.{Permᴰ}
use mathlib.Core.List.Permᴰ
use pico_dome.Base.{
  ℕ, zero, suc, ◌≤◌, Option, none, some, true, List, [], ◌∷◌, length, All, All-of_mem, ◌≡◌, refl,
  inl, inr, arith, ◌∙◌, ap,
}
use pico_dome.Base.Perms.{length-perm, All-perm}
use pico_dome.Base.Sort.{IsSorted}
use pico_dome.Jobs.Heap.{QueuedJob, not_after, Heapq}
use pico_dome.Jobs.Queue.{processing, JobQueue, set_status, dequeue}
use pico_dome.Jobs.Queue.Steps.{Reachable, Reachable-IsQueue}
use pico_dome.Jobs.Queue.Order.{dequeue_first}

module _ (heapq : Heapq) where
  -- A call of `dequeue` and, if it finds a job, what comes after.
  pub then_next :
      (JobQueue → List QueuedJob × JobQueue)
      → JobQueue × Option QueuedJob
      → List QueuedJob × JobQueue
  then_next rest (q', none) = ([], q')
  then_next rest (q', some j) = (j ∷ (rest q').0, (rest q').1)

  -- That many calls of `dequeue`, up to the first that finds no job: the jobs, and the queue that is left.
  pub dequeues : ℕ → JobQueue → List QueuedJob × JobQueue
  dequeues zero q = ([], q)
  dequeues (suc n) q = then_next (dequeues n) (dequeue heapq q)

  dequeues-some :
      (n : ℕ) (q q' : JobQueue) (j : QueuedJob)
      → dequeue heapq q ≡ (q', some j)
      → dequeues (suc n) q ≡ (j ∷ (dequeues n q').0, (dequeues n q').1)
  unfolding dequeues then_next
  dequeues-some n q q' j e = ap (then_next (dequeues n)) e

  dequeues-none : (n : ℕ) (q : JobQueue) → dequeue heapq q ≡ (q, none) → dequeues n q ≡ ([], q)
  unfolding dequeues then_next
  dequeues-none zero q e = refl
  dequeues-none (suc n) q e = ap (then_next (dequeues n)) e

  -- A job that is in work stays so.
  dequeues-processing :
      (n r : ℕ) (q : JobQueue)
      → heapq.IsHeap q.heap
      → q.status r ≡ processing
      → (dequeues n q).1.status r ≡ processing
  unfolding dequeues set_status
  dequeues-processing zero r q h e = e
  dequeues-processing (suc n) r q h e = elim (dequeue_first heapq q h) [
    | inl (_, q_is) ↦ rw (dequeues-none (suc n) q q_is) e
    | inr (j, q', q_is, (_, h', _, same)) ↦
        let e' : q'.status r ≡ processing = ap (λ x. x.status r) same ∙ ground (arith, e) in
        rw (dequeues-some n q q' j q_is) (dequeues-processing n r q' h' e')
  ]

  -- The jobs of the queue in their order, each in work, and no job left.
  abbrev pub IsDrained : JobQueue → List QueuedJob → JobQueue → Type 0
  IsDrained q js q' =
      Permᴰ q.heap js
      × IsSorted not_after js
      × (q'.heap ≡ [])
      × All (λ j. q'.status j.ref ≡ processing) js

  nothing_left : (q : JobQueue) → q.heap ≡ [] → IsDrained q [] q
  nothing_left q e = (rw e Permᴰ.nil, tt, e, tt)

  -- As many calls as the queue has jobs, or more, drain it.
  dequeues-IsDrained :
      (n : ℕ) (q : JobQueue)
      → heapq.IsHeap q.heap
      → length q.heap ≤ n
      → IsDrained q (dequeues n q).0 (dequeues n q).1
  unfolding set_status not_after
  dequeues-IsDrained zero q h l = elim (dequeue_first heapq q h) [
    | inl (e, q_is) ↦ rw (dequeues-none zero q q_is) (nothing_left q e)
    | inr (j, q', q_is, (perm, h', first, same)) ↦ absurd (omega (arith, length-perm perm, l))
  ]
  dequeues-IsDrained (suc n) q h l = elim (dequeue_first heapq q h) [
    | inl (e, q_is) ↦ rw (dequeues-none (suc n) q q_is) (nothing_left q e)
    | inr (j, q', q_is, (perm, h', first, same)) ↦
        let (p, s, empty, work) = dequeues-IsDrained n q' h' (omega (arith, length-perm perm, l)) in
        let later : All (λ k. not_after j k ≡ true) q'.heap =
          All-of_mem (λ k. not_after j k ≡ true) q'.heap (λ k m. rw (first k m) refl) in
        let e' : q'.status j.ref ≡ processing = ap (λ x. x.status j.ref) same ∙ ground arith in
        rw (dequeues-some n q q' j q_is) (
          Permᴰ.trans perm (Permᴰ.cons refl p),
          (All-perm (λ k. not_after j k ≡ true) (Permᴰ.symm p) later, s),
          empty,
          (dequeues-processing n j.ref q' h' e', work),
        )
  ]

  -- After any calls as many calls of dequeue as the maximum of the queue, with none of enqueue among them, give each
  -- of its jobs, in their order, put all of them in work and leave no job.
  pub Reachable-IsDrained :
      (max_size : ℕ) (q : JobQueue)
      → Reachable heapq max_size q
      → IsDrained q (dequeues max_size q).0 (dequeues max_size q).1
  Reachable-IsDrained max_size q r =
      let ((heap, bound, _), same) = Reachable-IsQueue heapq max_size q r in
      dequeues-IsDrained max_size q heap (omega (arith, bound, same))
