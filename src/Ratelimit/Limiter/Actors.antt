-- ===== src/Ratelimit/Limiter/Actors.antt =====
-- ratelimit/limiter.py: the buckets of the actors: their invariant, and that an actor's calls leave
-- the others alone.
use pico_dome.Base.{
  ℕ, ◌*◌, ◌≤◌, String, Option, none, some, true, [], ◌∷◌, ◌≡◌, refl, ◌∙◌, ◌⊎◌, inl, inr, arith,
  Bool-cases,
}
use pico_dome.Base.Text.{str_eq, eq_iff}
use pico_dome.Base.Dict.{Dict, lookup, insert, lookup-insert}
use pico_dome.Ratelimit.Bucket.{TokenBucket}
use pico_dome.Ratelimit.Limiter.{RateLimitConfig, is_stale, drop_stale}

module _ (c : RateLimitConfig) where
  -- A bucket made by the limiter and never over its burst.
  abbrev pub IsBucket : TokenBucket → Type 0
  IsBucket k = (k.tokens ≤ k.burst * 1000) × (k.rate ≡ c.rate_per_second) × (k.burst ≡ c.burst_size)

  -- No actor has two buckets, and each bucket is in order.
  abbrev pub HasBuckets : Dict TokenBucket → Type 0
  HasBuckets [] = Unit
  HasBuckets ((a, k) ∷ d) = (lookup a d ≡ none) × IsBucket k × HasBuckets d

  pub IsBucket-of_lookup :
      (a : String) (k : TokenBucket) (d : Dict TokenBucket)
      → HasBuckets d
      → lookup a d ≡ some k
      → IsBucket k
  unfolding lookup
  IsBucket-of_lookup a k [] h e = cc
  IsBucket-of_lookup a k ((b, m) ∷ d) h e = ground (arith, IsBucket-of_lookup a k d h.2)

  pub insert-HasBuckets :
      (a : String) (k : TokenBucket) (d : Dict TokenBucket)
      → IsBucket k
      → HasBuckets d
      → HasBuckets (insert a k d)
  unfolding insert lookup
  insert-HasBuckets a k [] b h = (refl, b, tt)
  insert-HasBuckets a k ((j, m) ∷ d) b h =
      ground (arith, eq_iff j a, eq_iff a j, insert-HasBuckets a k d b h.2, lookup-insert a j k d)

  lookup-drop_stale-none :
      (now : ℕ) (a : String) (d : Dict TokenBucket)
      → lookup a d ≡ none
      → lookup a (drop_stale now c d) ≡ none
  unfolding lookup drop_stale
  lookup-drop_stale-none now a [] e = refl
  lookup-drop_stale-none now a ((j, m) ∷ d) e = ground (arith, lookup-drop_stale-none now a d)

  pub drop_stale-HasBuckets :
      (now : ℕ) (d : Dict TokenBucket) → HasBuckets d → HasBuckets (drop_stale now c d)
  unfolding drop_stale
  drop_stale-HasBuckets now [] h = tt
  drop_stale-HasBuckets now ((j, m) ∷ d) h =
      ground (arith, drop_stale-HasBuckets now d h.2, lookup-drop_stale-none now j d h.0)

  -- An actor's bucket as it was, or gone because it was stale.
  abbrev pub KeptOrStale : ℕ → Option TokenBucket → Option TokenBucket → Type 0
  KeptOrStale now o p =
      (p ≡ o) ⊎ ((k : TokenBucket) × (o ≡ some k) × (is_stale now c k ≡ true) × (p ≡ none))

  pub lookup-drop_stale :
      (now : ℕ) (a : String) (d : Dict TokenBucket)
      → HasBuckets d
      → KeptOrStale now (lookup a d) (lookup a (drop_stale now c d))
  unfolding lookup drop_stale
  lookup-drop_stale now a [] h = inl refl
  lookup-drop_stale now a ((j, m) ∷ d) h = elim (Bool-cases (str_eq j a)) [
    | inr q ↦ elim (Bool-cases (is_stale now c m)) [
      | inl t ↦ rw (q, t) (lookup-drop_stale now a d h.2)
      | inr t ↦ rw (q, t, lookup, q) (lookup-drop_stale now a d h.2)
    ]
    | inl q ↦ elim (Bool-cases (is_stale now c m)) [
      | inl t ↦
          rw (q, t) (inr (m, refl, t, lookup-drop_stale-none now a d (rw (← (eq_iff j a).0 q) h.0)))
      | inr t ↦ rw (q, t, lookup, q) (inl refl)
    ]
  ]

  pub KeptOrStale-trans :
      (now : ℕ) (o p q : Option TokenBucket)
      → KeptOrStale now o p
      → KeptOrStale now p q
      → KeptOrStale now o q
  KeptOrStale-trans now o p q (inl e) k = rw (← e) k
  KeptOrStale-trans now o p q (inr (m, e, t, gone)) (inl f) = inr (m, e, t, f ∙ gone)
  KeptOrStale-trans now o p q (inr (m, e, t, gone)) (inr (l, f, _, last)) = inr (m, e, t, last)
