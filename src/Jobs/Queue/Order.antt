-- ===== src/Jobs/Queue/Order.antt =====
-- ratelimit/queue.py: which job is dequeued, what `enqueue` does with a full queue, and what
-- `list_pending` lists.
use mathlib.Core.List.{Permᴰ}
use mathlib.Core.List.Permᴰ
use pico_dome.Base.{
  ℕ, ◌+◌, ◌≤◌, ◌<◌, String, Option, none, some, true, false, List, [], ◌∷◌, Memᴰ, length, ◌≡◌, ◌≢◌,
  ◌⊎◌, refl, inl, inr, arith, Bool-cases, leb, All, All-mem, Option-cases, ap,
}
use pico_dome.Base.Dict.{Dict, insert}
use pico_dome.Base.Perms.{length-perm, mem-perm}
use pico_dome.Jobs.Heap.{
  JobPriority, critical, high, normal, low, priority_value, QueuedJob, before, Heapq,
}
use pico_dome.Jobs.Queue.{
  queued, processing, JobQueue, set_status, count_dropped, evict_lowest, add_job, enqueue, dequeue,
  is_full,
}
use pico_dome.Jobs.Queue.Evict.{IsEvicted, evict_lowest-IsEvicted}

low-cases :
    (p : JobPriority)
    → ((p ≡ low) × (leb 3 (priority_value p) ≡ true))
      ⊎ ((p ≢ low) × (leb 3 (priority_value p) ≡ false))
low-cases low = inl (refl, refl)
low-cases critical = inr (λ e. cc, refl)
low-cases high = inr (λ e. cc, refl)
low-cases normal = inr (λ e. cc, refl)

has_space : (q : JobQueue) → length q.heap < q.max_size → is_full q ≡ false
has_space q h = ground arith

nonempty :
    (h : List QueuedJob) → 0 < length h → (j : QueuedJob) × (rest : List QueuedJob) × (h ≡ j ∷ rest)
nonempty [] l = absurd (omega arith)
nonempty (j ∷ rest) l = (j, rest, refl)

module _ (heapq : Heapq) where
  -- The job `j` has left the heap and is in work, no job in the heap comes before it, and nothing else
  -- but the count of the dequeued jobs has changed.
  abbrev pub IsDequeued : JobQueue → QueuedJob → JobQueue → Type 0
  IsDequeued q j q' =
      Permᴰ q.heap (j ∷ q'.heap)
      × heapq.IsHeap q'.heap
      × ((k : QueuedJob) → Memᴰ k q'.heap → before k j ≡ false)
      × (q'
          ≡ set_status j processing (record q {
            heap = q'.heap;
            stats = record q.stats { dequeued = q.stats.dequeued + 1 };
          }))

  -- `dequeue` gives a first job of the queue, or nothing if there is none.
  pub dequeue_first :
      (q : JobQueue)
      → heapq.IsHeap q.heap
      → ((q.heap ≡ []) × (dequeue heapq q ≡ (q, none)))
        ⊎ ((j : QueuedJob) × (q' : JobQueue) × (dequeue heapq q ≡ (q', some j)) × IsDequeued q j q')
  unfolding dequeue set_status
  dequeue_first q h = elim (Option-cases (heapq.heappop q.heap)) [
    | inl e ↦ inl (heapq.heappop-none q.heap e, rw (e, dequeue) refl)
    | inr ((j, rest), e) ↦
        let (heap, first) = heapq.heappop-IsHeap q.heap rest j h e in
        inr (
          j,
          after j rest,
          rw (e, dequeue) refl,
          (heapq.heappop-perm q.heap rest j e, heap, first, refl),
        )
  ]
    where
      after : QueuedJob → List QueuedJob → JobQueue
      after j rest =
          set_status j processing
            (record q { heap = rest; stats = record q.stats { dequeued = q.stats.dequeued + 1 } })

  module _ (now : ℕ) (job_id : String) (command : List String) (actor : String)
      (priority : JobPriority) (metadata : Dict String) where
    -- A queued job with the given fields has joined the heap and the dictionary.
    abbrev pub IsAdded : JobQueue → QueuedJob → JobQueue → Type 0
    IsAdded q job q' =
        Permᴰ q'.heap (job ∷ q.heap)
        × heapq.IsHeap q'.heap
        × (job ≡ record {
          ref = q.next_ref;
          job_id = job_id;
          command = command;
          actor = actor;
          priority = priority;
          created_at = now;
          metadata = metadata;
        })
        × (q'
            ≡ set_status job queued (record q {
              heap = q'.heap;
              jobs = insert job_id job q.jobs;
              stats = record q.stats { enqueued = q.stats.enqueued + 1 };
              next_ref = q.next_ref + 1;
            }))

    abbrev pub IsAccepted : JobQueue → JobQueue × Option QueuedJob → Type 0
    IsAccepted q r = (job : QueuedJob) × (q' : JobQueue) × (r ≡ (q', some job)) × IsAdded q job q'

    pub add_job-IsAdded :
        (q : JobQueue)
        → heapq.IsHeap q.heap
        → IsAccepted q (add_job heapq now job_id command actor priority metadata q)
    unfolding add_job set_status
    add_job-IsAdded q h =
        (_, _, refl, (heapq.heappush-perm q.heap _, heapq.heappush-IsHeap q.heap _ h, refl, refl))

    -- `enqueue` adds the job if there is room, refuses a job of low priority if there is none, and
    -- otherwise evicts the worst job, whatever its priority, and adds the job.
    pub enqueue_lem :
        (q : JobQueue)
        → heapq.IsHeap q.heap
        → length q.heap ≤ q.max_size
        → 0 < q.max_size
        → let r = enqueue heapq now job_id command actor priority metadata q in
          ((length q.heap < q.max_size) × IsAccepted q r)
          ⊎ (((length q.heap ≡ q.max_size) × (priority ≡ low) × (r ≡ (count_dropped q, none)))
              ⊎ ((length q.heap ≡ q.max_size)
                  × (priority ≢ low)
                  × ((w : QueuedJob) × (q1 : JobQueue) × IsEvicted heapq q w q1 × IsAccepted q1 r)))
    unfolding enqueue
    enqueue_lem q h bound some_room = elim (Bool-cases (is_full q)) [
      | inr room ↦ inl (ground arith, rw room (add_job-IsAdded q h))
      | inl full ↦ rw full (elim (low-cases priority) [
        | inl (e, is_low) ↦ inr (inl (omega (arith, at_bound full), e, rw is_low refl))
        | inr (e, is_low) ↦
            let (j, rest, shape) = nonempty q.heap (omega (arith, at_bound full)) in
            let (w, evicted) = evict_lowest-IsEvicted heapq q shape in
            let room = has_room w (at_bound full) evicted in
            inr (
              inr (
                at_bound full,
                e,
                (
                  w,
                  evict_lowest heapq q,
                  evicted,
                  rw (is_low, room) (add_job-IsAdded (evict_lowest heapq q) evicted.2),
                ),
              ))
      ])
    ]
      where
        at_bound : is_full q ≡ true → length q.heap ≡ q.max_size
        at_bound full = ground arith

        has_room :
            (w : QueuedJob)
            → length q.heap ≡ q.max_size
            → IsEvicted heapq q w (evict_lowest heapq q)
            → is_full (evict_lowest heapq q) ≡ false
        has_room w full (perm, worst, heap, same) =
            let size = length-perm perm in
            let bound : (evict_lowest heapq q).max_size ≡ q.max_size = ap (λ x. x.max_size) same in
            has_space (evict_lowest heapq q) (omega (arith, size, bound))

    -- With room for some job, a full queue of critical jobs gives one of them up for a job of any
    -- priority but the lowest.
    pub enqueue_displaces :
        (q : JobQueue)
        → heapq.IsHeap q.heap
        → length q.heap ≡ q.max_size
        → 0 < q.max_size
        → All (λ j. j.priority ≡ critical) q.heap
        → priority ≢ low
        → let r = enqueue heapq now job_id command actor priority metadata q in
          (w : QueuedJob) × (job : QueuedJob) × (kept : List QueuedJob) × (w.priority ≡ critical)
          × (job.priority ≡ priority)
          × (r.1 ≡ some job)
          × Permᴰ q.heap (w ∷ kept)
          × Permᴰ r.0.heap (job ∷ kept)
    enqueue_displaces q h full some_room all_critical not_low =
        elim (enqueue_lem q h (omega (arith, full)) some_room) [
          | inl (room, _) ↦ absurd (omega (arith, room, full))
          | inr (inl (_, e, _)) ↦ absurd (not_low e)
          | inr (inr (_, _, (w, q1, evicted, (job, q', r, added)))) ↦ (
            w,
            job,
            q1.heap,
            All-mem (λ j. j.priority ≡ critical) all_critical
                (mem-perm (Permᴰ.symm evicted.0) (Memᴰ.head refl)),
            ap (λ j. j.priority) added.2,
            ap (λ x. x.1) r,
            evicted.0,
            rw r added.0,
          )
        ]
