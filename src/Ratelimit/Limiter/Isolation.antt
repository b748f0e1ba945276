-- ===== src/Ratelimit/Limiter/Isolation.antt =====
-- ratelimit/limiter.py: what a call of `allow` does to the buckets.
use pico_dome.Base.{
  ℕ, suc, ◌-◌, ◌≤◌, ◌<◌, String, none, some, false, [], ◌∷◌, ◌≡◌, ◌≢◌, refl, ◌∙◌, inl, inr, arith,
  Option-cases, Bool-cases, leb, ltb, length, is_some,
}
use pico_dome.Base.Dict.{Dict, lookup, insert, lookup-insert_ne}
use pico_dome.Ratelimit.Bucket.{TokenBucket, new_bucket, consume, consume-IsBounded}
use pico_dome.Ratelimit.Limiter.{
  RateLimitConfig, TokenBucketLimiter, is_stale, drop_stale, cleanup_stale, pass_global,
  admit_actor, consume_actor, periodic_cleanup, allow,
}
use pico_dome.Ratelimit.Limiter.Actors.{
  IsBucket, HasBuckets, IsBucket-of_lookup, insert-HasBuckets, drop_stale-HasBuckets, KeptOrStale,
  lookup-drop_stale, KeptOrStale-trans,
}

abbrev pub IsLimiter : TokenBucketLimiter → Type 0
IsLimiter l = HasBuckets l.config l.buckets

-- What a step leaves: the configuration, the invariant, and the buckets of other actors.
abbrev Keeps : ℕ → String → TokenBucketLimiter → TokenBucketLimiter → Type 0
Keeps now other l l' =
    (l'.config ≡ l.config)
    × HasBuckets l.config l'.buckets
    × KeptOrStale l.config now (lookup other l.buckets) (lookup other l'.buckets)

module _ (now : ℕ) (other actor : String) (ne : actor ≢ other) where
  cleanup_stale-Keeps :
      (l : TokenBucketLimiter) → IsLimiter l → Keeps now other l (cleanup_stale now l)
  unfolding cleanup_stale
  cleanup_stale-Keeps l h = (
    refl,
    drop_stale-HasBuckets l.config now l.buckets h,
    lookup-drop_stale l.config now other l.buckets h,
  )

  insert-Keeps :
      (k : TokenBucket) (l l' : TokenBucketLimiter)
      → IsBucket l.config k
      → Keeps now other l l'
      → Keeps now other l (record l' { buckets = insert actor k l'.buckets })
  insert-Keeps k l l' b (c, h, s) = (
    c,
    insert-HasBuckets l.config actor k l'.buckets b h,
    rw (lookup-insert_ne actor other k l'.buckets ne) s,
  )

  admit_actor-Keeps :
      (l : TokenBucketLimiter) → IsLimiter l → Keeps now other l (admit_actor now actor l)
  unfolding admit_actor
  admit_actor-Keeps l h = elim (Bool-cases (is_some (lookup actor l.buckets))) [
    | inl q ↦ rw q (refl, h, inl refl)
    | inr q ↦ elim (Bool-cases (leb l.config.max_actors (length l.buckets))) [
      | inl t ↦ rw (q, t) (insert-Keeps fresh l (cleanup_stale now l) new (cleanup_stale-Keeps l h))
      | inr t ↦ rw (q, t) (insert-Keeps fresh l l new (refl, h, inl refl))
    ]
  ]
    where
      fresh : TokenBucket
      fresh = new_bucket now l.config.rate_per_second l.config.burst_size

      new : IsBucket l.config fresh
      new = omega arith

  consume_actor-Keeps :
      (tokens : ℕ) (l : TokenBucketLimiter)
      → IsLimiter l
      → Keeps now other l (consume_actor now actor tokens l).0
  unfolding consume_actor
  consume_actor-Keeps tokens l h = elim (Option-cases (lookup actor l.buckets)) [
    | inl e ↦ rw (e, consume_actor) (refl, h, inl refl)
    | inr (k, e) ↦
        let b = IsBucket-of_lookup l.config actor k l.buckets h e in
        let (bounded, same_rate, same_burst, _) = consume-IsBounded now tokens k in
        rw (e, consume_actor)
          (insert-Keeps (consume now tokens k).0 l l (omega arith) (refl, h, inl refl))
  ]

  periodic_cleanup-Keeps :
      (l : TokenBucketLimiter) → IsLimiter l → Keeps now other l (periodic_cleanup now l)
  unfolding periodic_cleanup
  periodic_cleanup-Keeps l h = elim (Bool-cases (ltb 60000 (now - l.last_cleanup))) [
    | inl q ↦ rw q (cleanup_stale-Keeps l h)
    | inr q ↦ rw q (refl, h, inl refl)
  ]

  Keeps-trans :
      (l m n : TokenBucketLimiter) → Keeps now other l m → Keeps now other m n → Keeps now other l n
  Keeps-trans l m n (c, h, s) (d, k, t) = (
    d ∙ c,
    rw c at k,
    KeptOrStale-trans l.config now (lookup other l.buckets) (lookup other m.buckets)
        (lookup other n.buckets) s (rw c at t),
  )

  IsLimiter-of_Keeps : (l m : TokenBucketLimiter) → Keeps now other l m → IsLimiter m
  IsLimiter-of_Keeps l m (c, h, s) = rw c h

  pass_global-Keeps :
      (tokens : ℕ) (l : TokenBucketLimiter)
      → IsLimiter l
      → Keeps now other l (pass_global now tokens l).0
  unfolding pass_global
  pass_global-Keeps tokens l h = elim (Option-cases l.global_bucket) [
    | inl e ↦ rw (e, pass_global) (refl, h, inl refl)
    | inr (g, e) ↦ rw (e, pass_global) (refl, h, inl refl)
  ]

  -- A call of `allow` for one actor keeps the invariant of the buckets and the configuration, and
  -- leaves the bucket of any other actor as it was, unless that bucket is stale, in which case it
  -- may be gone.
  pub allow-Keeps :
      (tokens : ℕ) (l : TokenBucketLimiter)
      → IsLimiter l
      → let l' = (allow now actor tokens l).0 in
        (l'.config ≡ l.config)
        × HasBuckets l.config l'.buckets
        × KeptOrStale l.config now (lookup other l.buckets) (lookup other l'.buckets)
  unfolding allow
  allow-Keeps tokens l h =
      let l1 = (pass_global now tokens l).0 in
      let k1 = pass_global-Keeps tokens l h in
      let l2 = admit_actor now actor l1 in
      let k2 = Keeps-trans l l1 l2 k1 (admit_actor-Keeps l1 (IsLimiter-of_Keeps l l1 k1)) in
      let l3 = (consume_actor now actor tokens l2).0 in
      let k3 =
        Keeps-trans l l2 l3 k2 (consume_actor-Keeps tokens l2 (IsLimiter-of_Keeps l l2 k2)) in
      let k4 =
        Keeps-trans l l3 (periodic_cleanup now l3) k3
          (periodic_cleanup-Keeps l3 (IsLimiter-of_Keeps l l3 k3)) in
      elim (Bool-cases (pass_global now tokens l).1) [ inl q ↦ rw q k4 | inr q ↦ rw q k1 ]

-- Nothing is stale at `now`.
abbrev pub NoneStale : ℕ → RateLimitConfig → Dict TokenBucket → Type 0
NoneStale now c [] = Unit
NoneStale now c ((a, k) ∷ d) = (is_stale now c k ≡ false) × NoneStale now c d

drop_stale_none :
    (now : ℕ) (c : RateLimitConfig) (d : Dict TokenBucket)
    → NoneStale now c d
    → drop_stale now c d ≡ d
unfolding drop_stale
drop_stale_none now c [] h = refl
drop_stale_none now c ((a, k) ∷ d) h = ground (arith, drop_stale_none now c d h.1)

length-insert_new :
    (a : String) (k : TokenBucket) (d : Dict TokenBucket)
    → lookup a d ≡ none
    → length (insert a k d) ≡ suc (length d)
unfolding lookup insert
length-insert_new a k [] e = refl
length-insert_new a k ((j, m) ∷ d) e = ground (arith, length-insert_new a k d)

length-insert_old :
    (a : String) (k : TokenBucket) {m : TokenBucket} (d : Dict TokenBucket)
    → lookup a d ≡ some m
    → length (insert a k d) ≡ length d
unfolding lookup insert
length-insert_old a k [] e = cc
length-insert_old a k {m} ((j, l) ∷ d) e = ground (arith, length-insert_old a k {m = m} d)

-- Where the limiter already has as many buckets as it may, none of them stale, making room for a new
-- actor adds one more: the number of buckets is not bounded by `max_actors`.
pub admit_actor_exceeds :
    (now : ℕ) (actor : String) (l : TokenBucketLimiter)
    → lookup actor l.buckets ≡ none
    → NoneStale now l.config l.buckets
    → l.config.max_actors ≤ length l.buckets
    → l.config.max_actors < length (admit_actor now actor l).buckets
unfolding admit_actor cleanup_stale
admit_actor_exceeds now actor l e h full = ground (
  arith,
  drop_stale_none now l.config l.buckets h,
  length-insert_new actor (new_bucket now l.config.rate_per_second l.config.burst_size) l.buckets e,
)
