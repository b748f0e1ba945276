-- ===== src/Ratelimit/Limiter/Global.antt =====
-- ratelimit/limiter.py: the limit over all actors together.
use pico_dome.Base.{ℕ, ◌+◌, ◌-◌, ◌*◌, ◌≤◌, String, some, List, [], ◌∷◌, ◌≡◌, arith}
use pico_dome.Ratelimit.Bucket.{
  TokenBucket, consume, admitted, consume-IsBounded, consume_balance, time_split,
}
use pico_dome.Ratelimit.Limiter.{
  TokenBucketLimiter, pass_global, admit_actor, consume_actor, periodic_cleanup, allow,
  cleanup_stale,
}

-- A series of calls of `allow`: the times, the actors, the tokens asked for.
unfoldable pub allow_all : List (ℕ × String × ℕ) → TokenBucketLimiter → TokenBucketLimiter × ℕ
unfolding allow
allow_all [] l = (l, 0)
allow_all ((now, actor, tokens) ∷ calls) l =
    let (l', allowed) = allow now actor tokens l in
    let (l'', total) = allow_all calls l' in (l'', admitted allowed tokens + total)

abbrev pub IsTimed : ℕ → List (ℕ × String × ℕ) → ℕ → Type 0
IsTimed start [] last = start ≤ last
IsTimed start ((now, _, _) ∷ calls) last = (start ≤ now) × IsTimed now calls last

IsTimed-le :
    (start : ℕ) (calls : List (ℕ × String × ℕ)) (last : ℕ) → IsTimed start calls last → start ≤ last
IsTimed-le start [] last h = h
IsTimed-le start ((now, actor, tokens) ∷ calls) last h =
    omega (arith, IsTimed-le now calls last h.1)

-- Everything after the global part leaves the global bucket alone.
global-actor :
    (now : ℕ) (actor : String) (tokens : ℕ) (l : TokenBucketLimiter)
    → (periodic_cleanup now
        (consume_actor now actor tokens (admit_actor now actor l)).0).global_bucket
      ≡ l.global_bucket
unfolding periodic_cleanup consume_actor admit_actor cleanup_stale
global-actor now actor tokens l = ground arith

-- One call takes from the global bucket at least what it admits.
allow_global :
    (now : ℕ) (actor : String) (tokens : ℕ) (l : TokenBucketLimiter) (g : TokenBucket)
    → l.global_bucket ≡ some g
    → let (l', allowed) = allow now actor tokens l in
      let (g', passed) = consume now tokens g in
      (l'.global_bucket ≡ some g') × (admitted allowed tokens ≤ admitted passed tokens)
unfolding allow pass_global
allow_global now actor tokens l g e =
    let l1 = record l { global_bucket = some (consume now tokens g).0 } in
    ground (arith, global-actor now actor tokens l1)

-- Under a global bucket, all actors together are admitted in a period at most what the global
-- bucket holds at the start and its rate times the length of the period, whatever they ask for,
-- and however buckets of actors are dropped and made anew.
pub allow_all_bounded :
    (calls : List (ℕ × String × ℕ)) (l : TokenBucketLimiter) (g : TokenBucket) (last : ℕ)
    → l.global_bucket ≡ some g
    → IsTimed g.last_refill calls last
    → (allow_all calls l).1 ≤ g.tokens + (last - g.last_refill) * g.rate
unfolding allow_all
allow_all_bounded [] l g last e h = omega arith
allow_all_bounded ((now, actor, tokens) ∷ calls) l g last e h =
    let g' = (consume now tokens g).0 in
    let l' = (allow now actor tokens l).0 in
    let (e', le) = allow_global now actor tokens l g e in
    let (_, same_rate, _, when) = consume-IsBounded now tokens g in
    let rest = rw (when, same_rate) at (allow_all_bounded calls l' g' last e' (rw when h.1)) in
    let bal = consume_balance now tokens g in
    let split = time_split g.last_refill now last g.rate h.0 (IsTimed-le now calls last h.1) in
    omega arith
