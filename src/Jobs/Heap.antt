-- ===== src/Jobs/Heap.antt =====
-- ratelimit/queue.py: the jobs, their order, and the operations of Python's `heapq` as an interface
-- with what its documentation says of them, which a sorted list fills.
use mathlib.Core.List.{Permᴰ}
use mathlib.Core.List.Permᴰ
use pico_dome.Base.{
  ℕ, String, Option, none, some, Bool, true, false, not, List, [], ◌∷◌, Memᴰ, ◌==◌, ltb, ◌≡◌, refl,
  arith, if◌then◌else◌, All-mem,
}
use pico_dome.Base.Dict.{Dict}
use pico_dome.Base.Sort.{
  sort_by, insert_by, IsSorted, sort_by-perm, insert_by-perm, sort_by-IsSorted, insert_by-IsSorted,
}

pub data JobPriority : Type 0 where
  critical high normal low : JobPriority

-- The value of the `IntEnum`.
abbrev pub priority_value : JobPriority → ℕ
priority_value critical = 0
priority_value high = 1
priority_value normal = 2
priority_value low = 3

-- The fields that are set once. The field `status` is assigned while the heap and the dictionary
-- share the object; it stands with the queue, under the object's identity `ref`.
pub record QueuedJob : Type 0 where
  pub ref : ℕ
  pub job_id : String
  pub command : List String
  pub actor : String
  pub priority : JobPriority
  pub created_at : ℕ
  pub metadata : Dict String

-- `__lt__`
unfoldable pub before : QueuedJob → QueuedJob → Bool
before a b =
    if not (priority_value a.priority == priority_value b.priority)
    then ltb (priority_value a.priority) (priority_value b.priority)
    else ltb a.created_at b.created_at

pub record Heapq : Type 1 where
  pub IsHeap : List QueuedJob → Type 0
  pub heappush : List QueuedJob → QueuedJob → List QueuedJob
  pub heappop : List QueuedJob → Option (QueuedJob × List QueuedJob)
  pub heapify : List QueuedJob → List QueuedJob
  pub nil-IsHeap : IsHeap []
  pub heappush-IsHeap : (h : List QueuedJob) (j : QueuedJob) → IsHeap h → IsHeap (heappush h j)
  pub heappush-perm : (h : List QueuedJob) (j : QueuedJob) → Permᴰ (heappush h j) (j ∷ h)
  pub heapify-IsHeap : (h : List QueuedJob) → IsHeap (heapify h)
  pub heapify-perm : (h : List QueuedJob) → Permᴰ (heapify h) h
  -- An empty list has nothing to pop.
  pub heappop-none : (h : List QueuedJob) → heappop h ≡ none → h ≡ []
  pub heappop-perm :
      (h rest : List QueuedJob) (j : QueuedJob) → heappop h ≡ some (j, rest) → Permᴰ h (j ∷ rest)
  -- The popped job is a smallest one.
  pub heappop-IsHeap :
      (h rest : List QueuedJob) (j : QueuedJob)
      → IsHeap h
      → heappop h ≡ some (j, rest)
      → IsHeap rest × ((k : QueuedJob) → Memᴰ k rest → before k j ≡ false)

-- `a <= b`, as far as `sorted` can tell.
unfoldable pub not_after : QueuedJob → QueuedJob → Bool
unfolding before
not_after a b = not (before b a)

pub not_after_total : (a b : QueuedJob) → not_after a b ≡ false → not_after b a ≡ true
unfolding not_after
not_after_total a b h = ground arith

pub not_after_trans :
    (a b c : QueuedJob) → not_after a b ≡ true → not_after b c ≡ true → not_after a c ≡ true
unfolding not_after
not_after_trans a b c h k = ground arith

pub not_before : (k j : QueuedJob) → not_after j k ≡ true → before k j ≡ false
unfolding not_after
not_before k j h = ground arith

abbrev pub pop_first : List QueuedJob → Option (QueuedJob × List QueuedJob)
pop_first [] = none
pop_first (j ∷ rest) = some (j, rest)

pub sort_jobs-IsSorted : (jobs : List QueuedJob) → IsSorted not_after (sort_by not_after jobs)
sort_jobs-IsSorted = sort_by-IsSorted not_after not_after_total not_after_trans

-- A list in order, whose first job is the one to pop.
unfoldable pub sorted_heapq : Heapq
unfolding not_after
sorted_heapq = record {
  IsHeap = IsSorted not_after;
  heappush = λ h j. insert_by not_after j h;
  heappop = pop_first;
  heapify = sort_by not_after;
  nil-IsHeap = tt;
  heappush-IsHeap = λ h j s. insert_by-IsSorted not_after not_after_total not_after_trans j h s;
  heappush-perm = λ h j. insert_by-perm not_after j h;
  heapify-IsHeap = sort_jobs-IsSorted;
  heapify-perm = sort_by-perm not_after;
  heappop-none = nothing;
  heappop-perm = popped;
  heappop-IsHeap = smallest;
}
  where
    nothing : (h : List QueuedJob) → pop_first h ≡ none → h ≡ []
    nothing [] e = refl
    nothing (j ∷ h) e = cc

    popped :
        (h rest : List QueuedJob) (j : QueuedJob)
        → pop_first h ≡ some (j, rest)
        → Permᴰ h (j ∷ rest)
    popped [] rest j e = cc
    popped (k ∷ h) rest j e =
        let a : k ≡ j = cc in let b : h ≡ rest = cc in rw (a, b) (Permᴰ.refl (j ∷ rest))

    smallest :
        (h rest : List QueuedJob) (j : QueuedJob)
        → IsSorted not_after h
        → pop_first h ≡ some (j, rest)
        → IsSorted not_after rest × ((k : QueuedJob) → Memᴰ k rest → before k j ≡ false)
    smallest [] rest j s e = cc
    smallest (i ∷ h) rest j s e =
        let a : i ≡ j = cc in
        let b : h ≡ rest = cc in
        let (first, later) : IsSorted not_after (j ∷ rest) = rw (a, b) at s in
        (later, λ k m. not_before k j (All-mem (λ x. not_after j x ≡ true) first m))
