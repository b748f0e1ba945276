-- ===== src/Jobs/Tests.antt =====
-- Sample queues over the sorted heap, and the theorems at them.
use pico_dome.Base.{
  ℕ, ◌+◌, ◌<◌, String, none, some, false, [], ◌∷◌, Memᴰ, length, filter, ◌≡◌, ◌≢◌, ◌⊎◌, refl, arith,
}
use pico_dome.Base.Dict.{lookup}
use pico_dome.Base.Sort.{IsSorted, sort_by}
use pico_dome.Jobs.Heap.{JobPriority, critical, normal, low, QueuedJob, not_after, sorted_heapq}
use pico_dome.Jobs.Queue.{
  queued, JobQueue, new_queue, count_dropped, enqueue, dequeue, purge_expired, is_expired,
}
use pico_dome.Jobs.Queue.Evict.{IsEvicted}
use pico_dome.Jobs.Queue.Order.{IsDequeued, dequeue_first, IsAccepted, enqueue_lem}
use pico_dome.Jobs.Queue.Invariant.{IsQueue}
use pico_dome.Jobs.Queue.Purge.{purge_expired-IsQueue}
use pico_dome.Jobs.Queue.Drain.{IsDrained, dequeues, Reachable-IsDrained}
use pico_dome.Jobs.Queue.Steps.{Step, Reachable, Reachable-IsQueue}

abbrev job : ℕ → String → JobPriority → ℕ → QueuedJob
job ref job_id priority created_at = record {
  ref = ref;
  job_id = job_id;
  command = "npm" ∷ [];
  actor = "ci";
  priority = priority;
  created_at = created_at;
  metadata = [];
}

-- Two critical jobs, in a queue of size two.
abbrev two_jobs : JobQueue
two_jobs = record {
  heap = job 0 "a" critical 10 ∷ job 1 "b" critical 20 ∷ [];
  jobs = ("a", job 0 "a" critical 10) ∷ ("b", job 1 "b" critical 20) ∷ [];
  max_size = 2;
  completed = [];
  stats = record { enqueued = 2; dequeued = 0; completed = 0; dropped = 0; expired = 0 };
  status = λ _. queued;
  next_ref = 2;
}

two_jobs-IsSorted : IsSorted not_after two_jobs.heap
unfolding not_after
two_jobs-IsSorted = ((refl, tt), (tt, tt))

two_jobs-IsQueue : IsQueue sorted_heapq two_jobs
unfolding sorted_heapq lookup
two_jobs-IsQueue = (two_jobs-IsSorted, omega arith, (λ e. cc, (λ e. cc, tt)))

-- The newer critical job gives way to a normal one, which is then behind the older.
displace_run :
    (dequeue sorted_heapq (enqueue sorted_heapq 30 "c" [] "ci" normal [] two_jobs).0).1
    ≡ some (job 0 "a" critical 10)
unfolding enqueue dequeue sorted_heapq sort_by
displace_run = refl

-- A low job is refused, whatever is in the queue.
refuse_run : (enqueue sorted_heapq 30 "c" [] "ci" low [] two_jobs).1 ≡ none
unfolding enqueue
refuse_run = refl

dequeue_first_example :
    ((two_jobs.heap ≡ []) × (dequeue sorted_heapq two_jobs ≡ (two_jobs, none)))
    ⊎ ((j : QueuedJob) × (q' : JobQueue) × (dequeue sorted_heapq two_jobs ≡ (q', some j))
        × IsDequeued sorted_heapq two_jobs j q')
dequeue_first_example = dequeue_first sorted_heapq two_jobs (two_jobs-IsQueue.0)

enqueue_lem_example :
    let r = enqueue sorted_heapq 30 "c" [] "ci" normal [] two_jobs in
    ((2 < 2) × IsAccepted sorted_heapq 30 "c" [] "ci" normal [] two_jobs r)
    ⊎ (((2 ≡ two_jobs.max_size) × (normal ≡ low) × (r ≡ (count_dropped two_jobs, none)))
        ⊎ ((2 ≡ two_jobs.max_size)
            × (normal ≢ low)
            × ((w : QueuedJob) × (q1 : JobQueue) × IsEvicted sorted_heapq two_jobs w q1
                × IsAccepted sorted_heapq 30 "c" [] "ci" normal [] q1 r)))
enqueue_lem_example =
    enqueue_lem sorted_heapq 30 "c" [] "ci" normal [] two_jobs two_jobs-IsQueue.0 (omega arith)
      (omega arith)

purge_expired-IsQueue_example :
    (q' : JobQueue) × (n : ℕ) × (purge_expired sorted_heapq 1000 985 two_jobs ≡ some (q', n))
    × IsQueue sorted_heapq q'
    × (n ≡ length (filter (is_expired sorted_heapq 1000 985 two_jobs) two_jobs.heap))
    × (q'.max_size ≡ 2)
    × (q'.stats.expired ≡ 0 + n)
    × ((k : QueuedJob)
        → Memᴰ k q'.heap
        → Memᴰ k two_jobs.heap × (is_expired sorted_heapq 1000 985 two_jobs k ≡ false))
purge_expired-IsQueue_example =
    purge_expired-IsQueue sorted_heapq 1000 985 two_jobs two_jobs-IsQueue

Reachable-IsQueue_example :
    let q = (enqueue sorted_heapq 10 "a" [] "ci" normal [] (new_queue 2)).0 in
    IsQueue sorted_heapq q × (q.max_size ≡ 2)
Reachable-IsQueue_example =
    Reachable-IsQueue sorted_heapq 2 (enqueue sorted_heapq 10 "a" [] "ci" normal [] (new_queue 2)).0
      (Reachable.step Reachable.new (Step.enqueue_step 10 "a" [] "ci" normal [] (new_queue 2)))

Reachable-IsDrained_example :
    let q = (enqueue sorted_heapq 10 "a" [] "ci" normal [] (new_queue 2)).0 in
    IsDrained sorted_heapq q (dequeues sorted_heapq 2 q).0 (dequeues sorted_heapq 2 q).1
Reachable-IsDrained_example =
    Reachable-IsDrained sorted_heapq 2
      (enqueue sorted_heapq 10 "a" [] "ci" normal [] (new_queue 2)).0
      (Reachable.step Reachable.new (Step.enqueue_step 10 "a" [] "ci" normal [] (new_queue 2)))
