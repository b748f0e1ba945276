-- ===== src/Ratelimit/Tests.antt =====
-- Calls at a small limiter, and the theorems at them.
use pico_dome.Base.{ℕ, ◌≤◌, String, some, true, false, List, [], ◌∷◌, ◌≡◌, ◌≢◌, refl, arith}
use pico_dome.Base.Text.{str_eq, eq_iff}
use pico_dome.Base.Dict.{lookup, insert}
use pico_dome.Ratelimit.Bucket.{TokenBucket, consume_all}
use pico_dome.Ratelimit.Limiter.{RateLimitConfig, TokenBucketLimiter, allow}
use pico_dome.Ratelimit.Limiter.Actors.{HasBuckets, KeptOrStale}
use pico_dome.Ratelimit.Limiter.Isolation.{allow-Keeps}
use pico_dome.Ratelimit.Limiter.Refill.{allow_refilled}
use pico_dome.Ratelimit.Limiter.Global.{allow_all, allow_all_bounded}

-- Two tokens a second, at most three at once.
abbrev bucket : TokenBucket
bucket = record { tokens = 3000; last_refill = 0; rate = 2; burst = 3 }

abbrev calls : List (ℕ × ℕ)
calls = (0, 2000) ∷ (10, 1000) ∷ (20, 1000) ∷ (1000, 1000) ∷ []

-- The third call is refused, and the fourth finds the bucket refilled.
consume_all_run : (consume_all calls bucket).1 ≡ 4000
unfolding consume_all
consume_all_run = refl

abbrev config : RateLimitConfig
config = record {
  rate_per_second = 2;
  burst_size = 3;
  max_actors = 1;
  idle_timeout_seconds = 3600;
  global_rps = 1;
}

abbrev limiter : TokenBucketLimiter
limiter = record {
  config = config;
  buckets = ("ci", bucket) ∷ [];
  global_bucket = some (record { tokens = 10000; last_refill = 0; rate = 1; burst = 10 });
  last_cleanup = 0;
}

abbrev requests : List (ℕ × String × ℕ)
requests = (0, "ci", 3000) ∷ (5, "ci", 1000) ∷ (10, "dev", 1000) ∷ []

allow_all_run : (allow_all requests limiter).1 ≡ 4000
unfolding allow_all lookup insert
allow_all_run = refl

allow_all_bounded_example : (allow_all requests limiter).1 ≤ 10010
allow_all_bounded_example =
    allow_all_bounded requests limiter
      (record { tokens = 10000; last_refill = 0; rate = 1; burst = 10 }) 10 refl (omega arith)

allow-Keeps_example :
    let l' = (allow 5 "dev" 1000 limiter).0 in
    (l'.config ≡ config)
    × HasBuckets config l'.buckets
    × KeptOrStale config 5 (lookup "ci" limiter.buckets) (lookup "ci" l'.buckets)
unfolding lookup
allow-Keeps_example =
    allow-Keeps 5 "ci" "dev" (other "dev" "ci" refl) 1000 limiter (refl, omega arith, tt)
  where
    other : (s t : String) → str_eq s t ≡ false → s ≢ t
    other s t e = ground (arith, eq_iff s t)

-- A second after the last call, with one token a second for all and two for the actor.
allow_refilled_example : (allow 1000 "ci" 1000 limiter).1 ≡ true
unfolding lookup
allow_refilled_example =
    allow_refilled 1000 1000 "ci" limiter
      (λ g e.
        let e' : (record { tokens = 10000; last_refill = 0; rate = 1; burst = 10 }) ≡ g = cc in
        rw (← e') (omega arith, omega arith))
      (λ k e. let e' : bucket ≡ k = cc in rw (← e') (omega arith, omega arith)) (omega arith)
