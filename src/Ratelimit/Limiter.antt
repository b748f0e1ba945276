-- ===== src/Ratelimit/Limiter.antt =====
-- ratelimit/limiter.py: `TokenBucketLimiter`. A call reads the clock several times; here these
-- readings are one argument, `now`. The units are those of Bucket.antt. The lock makes a call one step.
pub mod Actors
pub mod Isolation
pub mod Global
pub mod Refill
use pico_dome.Base.{
  ℕ, ◌+◌, ◌-◌, ◌*◌, String, Option, none, some, Bool, true, false, not, List, [], ◌∷◌, ltb, leb,
  is_some, length, if◌then◌else◌,
}
use pico_dome.Base.Text.{str_eq}
use pico_dome.Base.Dict.{Dict, lookup, insert, pop}
use pico_dome.Ratelimit.Bucket.{TokenBucket, new_bucket, refill, consume}

pub record RateLimitConfig : Type 0 where
  pub rate_per_second : ℕ
  pub burst_size : ℕ
  pub max_actors : ℕ
  pub idle_timeout_seconds : ℕ
  pub global_rps : ℕ

pub record TokenBucketLimiter : Type 0 where
  pub config : RateLimitConfig
  pub buckets : Dict TokenBucket
  pub global_bucket : Option TokenBucket
  pub last_cleanup : ℕ

-- `__init__`
unfoldable pub new_limiter : ℕ → RateLimitConfig → TokenBucketLimiter
unfolding new_bucket
new_limiter now c = record {
  config = c;
  buckets = [];
  global_bucket =
      if ltb 0 c.global_rps then some (new_bucket now c.global_rps (c.global_rps * 10)) else none;
  last_cleanup = now;
}

-- Idle for longer than the timeout at `now`.
unfoldable pub is_stale : ℕ → RateLimitConfig → TokenBucket → Bool
is_stale now c k = ltb k.last_refill (now - c.idle_timeout_seconds * 1000)

unfoldable pub drop_stale : ℕ → RateLimitConfig → Dict TokenBucket → Dict TokenBucket
unfolding is_stale
drop_stale now c [] = []
drop_stale now c ((a, k) ∷ d) =
    let rest = drop_stale now c d in if is_stale now c k then rest else (a, k) ∷ rest

-- `_cleanup_stale`
unfoldable pub cleanup_stale : ℕ → TokenBucketLimiter → TokenBucketLimiter
unfolding drop_stale
cleanup_stale now l = record l { buckets = drop_stale now l.config l.buckets }

-- The global part of `allow`: the limiter with its global bucket after the call, and whether to go on.
unfoldable pub pass_global : ℕ → ℕ → TokenBucketLimiter → TokenBucketLimiter × Bool
unfolding consume
pass_global now tokens l = elim l.global_bucket [
  | none ↦ (l, true)
  | some g ↦
      let (g', allowed) = consume now tokens g in (record l { global_bucket = some g' }, allowed)
]

-- The buckets with one for the actor, after stale ones have made room if there are too many.
unfoldable pub admit_actor : ℕ → String → TokenBucketLimiter → TokenBucketLimiter
unfolding new_bucket cleanup_stale
admit_actor now actor l =
    let l' = if leb l.config.max_actors (length l.buckets) then cleanup_stale now l else l in
    let fresh = new_bucket now l.config.rate_per_second l.config.burst_size in
    if is_some (lookup actor l.buckets)
    then l
    else record l' { buckets = insert actor fresh l'.buckets }

unfoldable pub consume_actor : ℕ → String → ℕ → TokenBucketLimiter → TokenBucketLimiter × Bool
unfolding consume
consume_actor now actor tokens l = elim (lookup actor l.buckets) [
  | none ↦ (l, false)
  | some k ↦
      let (k', allowed) = consume now tokens k in
      (record l { buckets = insert actor k' l.buckets }, allowed)
]

unfoldable pub periodic_cleanup : ℕ → TokenBucketLimiter → TokenBucketLimiter
unfolding cleanup_stale
periodic_cleanup now l =
    let l' = cleanup_stale now l in
    if ltb 60000 (now - l.last_cleanup) then record l' { last_cleanup = now } else l

unfoldable pub allow : ℕ → String → ℕ → TokenBucketLimiter → TokenBucketLimiter × Bool
unfolding pass_global admit_actor consume_actor periodic_cleanup
allow now actor tokens l =
    let (l1, passed) = pass_global now tokens l in
    let (l2, allowed) = consume_actor now actor tokens (admit_actor now actor l1) in
    if passed then (periodic_cleanup now l2, allowed) else (l1, false)

pub record Status : Type 0 where
  pub tokens_available : ℕ
  pub burst_size : ℕ
  pub rate_per_second : ℕ
  pub limited : Bool

-- `get_status`, with the tokens not rounded to hundredths.
unfoldable pub get_status : ℕ → String → TokenBucketLimiter → TokenBucketLimiter × Status
unfolding refill
get_status now actor l = elim (lookup actor l.buckets) [
  | some k ↦
      let k' = refill now k in
      (
        record l { buckets = insert actor k' l.buckets },
        record {
          tokens_available = k'.tokens;
          burst_size = k'.burst;
          rate_per_second = k'.rate;
          limited = ltb k'.tokens 1000;
        },
      )
  | none ↦ (
    l,
    record {
      tokens_available = l.config.burst_size * 1000;
      burst_size = l.config.burst_size;
      rate_per_second = l.config.rate_per_second;
      limited = false;
    },
  )
]

-- `reset`; an empty name clears all actors, as `None` does.
unfoldable pub reset : Option String → TokenBucketLimiter → TokenBucketLimiter
reset none l = record l { buckets = [] }
reset (some actor) l =
    if str_eq actor ""
    then record l { buckets = [] }
    else record l { buckets = pop actor l.buckets }
