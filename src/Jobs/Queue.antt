-- ===== src/Jobs/Queue.antt =====
-- ratelimit/queue.py: `JobQueue`, over any `heapq`. The lock makes a call one step; the clock reading,
-- in milliseconds, and the new id are arguments. The objects are numbered in the order they are made,
-- and a job's status stands under its number.
pub mod Evict
pub mod Order
pub mod Pending
pub mod Invariant
pub mod Purge
pub mod Steps
pub mod Drain
use pico_dome.Base.{
  ℕ, zero, suc, ◌+◌, ◌-◌, ◌*◌, String, Option, none, some, Bool, true, false, not, ◌&&◌, ◌||◌, List,
  [], ◌∷◌, length, filter, map, take, ◌==◌, ltb, leb, is_empty, if◌then◌else◌,
}
use pico_dome.Base.Text.{contains}
use pico_dome.Base.Dict.{Dict, lookup, insert, values}
use pico_dome.Base.Sort.{sort_by}
use pico_dome.Jobs.Heap.{
  JobPriority, critical, high, normal, low, priority_value, QueuedJob, before, not_after, Heapq,
}

pub data JobStatus : Type 0 where
  queued processing completed failed expired dropped : JobStatus

abbrev pub is_queued : JobStatus → Bool
is_queued queued = true
is_queued _ = false

pub record Stats : Type 0 where
  pub enqueued : ℕ
  pub dequeued : ℕ
  pub completed : ℕ
  pub dropped : ℕ
  pub expired : ℕ

pub record JobQueue : Type 0 where
  pub heap : List QueuedJob
  pub jobs : Dict QueuedJob
  pub max_size : ℕ
  pub completed : Dict (Dict String)
  pub stats : Stats
  pub status : ℕ → JobStatus
  pub next_ref : ℕ

-- `__init__`
unfoldable pub new_queue : ℕ → JobQueue
new_queue max_size = record {
  heap = [];
  jobs = [];
  max_size = max_size;
  completed = [];
  stats = record { enqueued = 0; dequeued = 0; completed = 0; dropped = 0; expired = 0 };
  status = λ _. queued;
  next_ref = 0;
}

-- `job.status = …`
unfoldable pub set_status : QueuedJob → JobStatus → JobQueue → JobQueue
set_status j s q = record q { status = λ r. if r == j.ref then s else q.status r }

unfoldable pub count_dropped : JobQueue → JobQueue
count_dropped q = record q { stats = record q.stats { dropped = q.stats.dropped + 1 } }

-- The condition of the loop of `_evict_lowest`.
unfoldable pub is_worse : QueuedJob → QueuedJob → Bool
is_worse j worst =
    ltb (priority_value worst.priority) (priority_value j.priority)
    || (priority_value j.priority == priority_value worst.priority
        && ltb worst.created_at j.created_at)

-- The loop, from the index of the next job and the worst one so far.
unfoldable pub worst_from : ℕ → ℕ × QueuedJob → List QueuedJob → ℕ × QueuedJob
unfolding is_worse
worst_from i (k, worst) [] = (k, worst)
worst_from i (k, worst) (j ∷ rest) =
    worst_from (i + 1) (if is_worse j worst then (i, j) else (k, worst)) rest

-- The list after `pop(i)`.
unfoldable pub pop_at : ℕ → List QueuedJob → List QueuedJob
pop_at i [] = []
pop_at zero (j ∷ rest) = rest
pop_at (suc i) (j ∷ rest) = j ∷ pop_at i rest

abbrev pub is_full : JobQueue → Bool
is_full q = leb q.max_size (length q.heap)

module _ (heapq : Heapq) where
  -- `_evict_lowest`; the first job is worse than the values that the loop starts from.
  unfoldable pub evict_lowest : JobQueue → JobQueue
  unfolding worst_from pop_at set_status count_dropped
  evict_lowest q = elim q.heap [
    | [] ↦ q
    | ◌∷◌ j rest ↦
        let (i, worst) = worst_from 1 (0, j) rest in
        let q1 = record q { heap = heapq.heapify (pop_at i (j ∷ rest)) } in
        count_dropped (set_status worst dropped q1)
  ]

  -- The part of `enqueue` after the tests.
  unfoldable pub add_job :
      ℕ
      → String
      → List String
      → String
      → JobPriority
      → Dict String
      → JobQueue
      → JobQueue × Option QueuedJob
  unfolding set_status insert
  add_job now job_id command actor priority metadata q =
      let job : QueuedJob = record {
        ref = q.next_ref;
        job_id = job_id;
        command = command;
        actor = actor;
        priority = priority;
        created_at = now;
        metadata = metadata;
      } in
      (
        set_status job queued (record q {
          heap = heapq.heappush q.heap job;
          jobs = insert job_id job q.jobs;
          stats = record q.stats { enqueued = q.stats.enqueued + 1 };
          next_ref = q.next_ref + 1;
        }),
        some job,
      )

  unfoldable pub enqueue :
      ℕ
      → String
      → List String
      → String
      → JobPriority
      → Dict String
      → JobQueue
      → JobQueue × Option QueuedJob
  unfolding evict_lowest add_job count_dropped
  enqueue now job_id command actor priority metadata q =
      if is_full q
      then if leb (priority_value low) (priority_value priority)
        then (count_dropped q, none)
        else (let q' = evict_lowest q in
            if is_full q'
            then (count_dropped q', none)
            else add_job now job_id command actor priority metadata q')
      else add_job now job_id command actor priority metadata q

  -- `dequeue`, once it does not wait any more: a job is there, or the time is over.
  unfoldable pub dequeue : JobQueue → JobQueue × Option QueuedJob
  unfolding set_status
  dequeue q = elim (heapq.heappop q.heap) [
    | none ↦ (q, none)
    | some (j, rest) ↦ (
      set_status j processing
          (record q { heap = rest; stats = record q.stats { dequeued = q.stats.dequeued + 1 } }),
      some j,
    )
  ]

  abbrev pub count_completed : JobQueue → JobQueue
  count_completed q = record q { stats = record q.stats { completed = q.stats.completed + 1 } }

  unfoldable pub complete : String → Option (Dict String) → JobQueue → JobQueue
  unfolding set_status lookup insert
  complete job_id result q = elim (lookup job_id q.jobs) [
    | none ↦ q
    | some j ↦
        let q1 = set_status j completed q in
        count_completed (elim result [
          | none ↦ q1
          | some [] ↦ q1
          | some (◌∷◌ f r) ↦ record q1 { completed = insert job_id (f ∷ r) q1.completed }
        ])
  ]

  unfoldable pub fail : String → JobQueue → JobQueue
  unfolding set_status lookup
  fail job_id q = elim (lookup job_id q.jobs) [
    | none ↦ q
    | some j ↦ count_completed (set_status j failed q)
  ]

  unfoldable pub get : String → JobQueue → Option QueuedJob
  unfolding lookup
  get job_id q = lookup job_id q.jobs

  unfoldable pub get_result : String → JobQueue → Option (Dict String)
  unfolding lookup
  get_result job_id q = lookup job_id q.completed

  unfoldable pub list_pending : ℕ → JobQueue → List QueuedJob
  unfolding filter values sort_by not_after
  list_pending limit q =
      take limit (sort_by not_after (filter (λ j. is_queued (q.status j.ref)) (values q.jobs)))

  unfoldable pub size : JobQueue → ℕ
  size q = length q.heap

  -- The loop over `expired_ids`; `none` is the `KeyError` of an id that is not in the dictionary.
  unfoldable pub expire : List String → JobQueue → Option JobQueue
  unfolding lookup set_status
  expire [] q = some q
  expire (i ∷ ids) q = elim (lookup i q.jobs) [
    | none ↦ none
    | some j ↦
        let q1 = set_status j expired q in
        expire ids (record q1 { stats = record q1.stats { expired = q1.stats.expired + 1 } })
  ]

  -- A queued job that is older than the cut-off.
  unfoldable pub is_expired : ℕ → ℕ → JobQueue → QueuedJob → Bool
  is_expired now max_age q j = ltb j.created_at (now - max_age) && is_queued (q.status j.ref)

  unfoldable pub purge_expired : ℕ → ℕ → JobQueue → Option (JobQueue × ℕ)
  unfolding expire is_expired filter contains
  purge_expired now max_age q =
      let expired_ids = map (λ j. j.job_id) (filter (is_expired now max_age q) q.heap) in
      elim (expire expired_ids q) [
        | none ↦ none
        | some q1 ↦ some (
          record q1 {
            heap = heapq.heapify (filter (λ j. not (contains expired_ids j.job_id)) q1.heap);
          },
          length expired_ids,
        )
      ]
