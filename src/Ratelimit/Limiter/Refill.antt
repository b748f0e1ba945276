-- ===== src/Ratelimit/Limiter/Refill.antt =====
-- ratelimit/limiter.py: that a caller who has waited is admitted.
use pico_dome.Base.{
  ℕ, ◌-◌, ◌*◌, ◌≤◌, String, none, some, true, ◌≡◌, refl, inl, inr, arith, Option-cases,
}
use pico_dome.Base.Dict.{lookup, lookup-insert_self}
use pico_dome.Ratelimit.Bucket.{TokenBucket, new_bucket, consume}
use pico_dome.Ratelimit.Limiter.{TokenBucketLimiter, pass_global, admit_actor, consume_actor, allow}

-- The burst of the bucket covers the tokens, and so does what it has gained since its last refill.
abbrev pub IsRefilled : ℕ → ℕ → TokenBucket → Type 0
IsRefilled now tokens k = (tokens ≤ k.burst * 1000) × (tokens ≤ (now - k.last_refill) * k.rate)

module _ (now tokens : ℕ) where
  consume_refilled : (k : TokenBucket) → IsRefilled now tokens k → (consume now tokens k).1 ≡ true
  unfolding consume
  consume_refilled k h = ground arith

  pass_global_refilled :
      (l : TokenBucketLimiter)
      → ((g : TokenBucket) → l.global_bucket ≡ some g → IsRefilled now tokens g)
      → let r = pass_global now tokens l in
        (r.1 ≡ true) × (r.0.buckets ≡ l.buckets) × (r.0.config ≡ l.config)
  unfolding pass_global
  pass_global_refilled l h = elim (Option-cases l.global_bucket) [
    | inl e ↦ rw e (refl, refl, refl)
    | inr (g, e) ↦ rw e (consume_refilled g (h g e), refl, refl)
  ]

  consume_actor_refilled :
      (actor : String) (l : TokenBucketLimiter) (k : TokenBucket)
      → lookup actor l.buckets ≡ some k
      → IsRefilled now tokens k
      → (consume_actor now actor tokens l).1 ≡ true
  unfolding consume_actor
  consume_actor_refilled actor l k e h = rw (e, consume_actor) (consume_refilled k h)

  new_consumes :
      (rate burst : ℕ)
      → tokens ≤ burst * 1000
      → (consume now tokens (new_bucket now rate burst)).1 ≡ true
  unfolding consume new_bucket
  new_consumes rate burst h = ground arith

  new_actor_consumes :
      (actor : String) (l : TokenBucketLimiter) (rate burst : ℕ)
      → lookup actor l.buckets ≡ some (new_bucket now rate burst)
      → tokens ≤ burst * 1000
      → (consume_actor now actor tokens l).1 ≡ true
  unfolding consume_actor
  new_actor_consumes actor l rate burst e h = rw (e, consume_actor) (new_consumes rate burst h)

  admit_actor-known :
      (actor : String) (l : TokenBucketLimiter) (k : TokenBucket)
      → lookup actor l.buckets ≡ some k
      → lookup actor (admit_actor now actor l).buckets ≡ some k
  unfolding admit_actor
  admit_actor-known actor l k e = ground (arith, e)

  admit_actor-new :
      (actor : String) (l : TokenBucketLimiter)
      → lookup actor l.buckets ≡ none
      → lookup actor (admit_actor now actor l).buckets
        ≡ some (new_bucket now l.config.rate_per_second l.config.burst_size)
  unfolding admit_actor
  admit_actor-new actor l e = rw (e, admit_actor) (lookup-insert_self _ _ _)

  -- A caller whose bucket, or else a new one, and the global bucket, if there is one, cover the tokens and have gained
  -- as many since their last refill is admitted, whatever came before.
  pub allow_refilled :
      (actor : String) (l : TokenBucketLimiter)
      → ((g : TokenBucket) → l.global_bucket ≡ some g → IsRefilled now tokens g)
      → ((k : TokenBucket) → lookup actor l.buckets ≡ some k → IsRefilled now tokens k)
      → tokens ≤ l.config.burst_size * 1000
      → (allow now actor tokens l).1 ≡ true
  unfolding allow
  allow_refilled actor l g k b =
      let (passed, buckets, config) = pass_global_refilled l g in
      let l1 = (pass_global now tokens l).0 in
      rw passed (elim (Option-cases (lookup actor l.buckets)) [
        | inl e ↦
            let e1 : lookup actor l1.buckets ≡ none = rw buckets e in
            new_actor_consumes actor (admit_actor now actor l1) l1.config.rate_per_second
              l1.config.burst_size (admit_actor-new actor l1 e1) (rw config b)
        | inr (c, e) ↦
            let e1 : lookup actor l1.buckets ≡ some c = rw buckets e in
            consume_actor_refilled actor (admit_actor now actor l1) c
              (admit_actor-known actor l1 c e1) (k c e)
      ])
