-- ===== src/Ratelimit/Bucket.antt =====
-- ratelimit/limiter.py: `_TokenBucket`. Times are milliseconds and tokens are thousandths of a token,
-- so that a rate in tokens per second is a rate in thousandths per millisecond; rates are whole
-- numbers, and the arithmetic is exact where the code uses floats.
use native.Mathlib.Nat.{add-mul}
use pico_dome.Base.{
  ℕ, ◌+◌, ◌-◌, ◌*◌, ◌≤◌, min, Bool, true, false, List, [], ◌∷◌, ◌≡◌, arith, leb, if◌then◌else◌,
}

pub record TokenBucket : Type 0 where
  pub tokens : ℕ
  pub last_refill : ℕ
  pub rate : ℕ
  pub burst : ℕ

-- `__init__`: a new bucket is full. `burst` is in tokens.
unfoldable pub new_bucket : ℕ → ℕ → ℕ → TokenBucket
new_bucket now rate burst = record {
  tokens = burst * 1000;
  last_refill = now;
  rate = rate;
  burst = burst;
}

unfoldable pub refill : ℕ → TokenBucket → TokenBucket
refill now k = record k {
  tokens = min (k.burst * 1000) (k.tokens + (now - k.last_refill) * k.rate);
  last_refill = now;
}

unfoldable pub consume : ℕ → ℕ → TokenBucket → TokenBucket × Bool
unfolding refill
consume now tokens k =
    let k' = refill now k in
    if leb tokens k'.tokens then (record k' { tokens = k'.tokens - tokens }, true) else (k', false)

-- What a call admitted.
abbrev pub admitted : Bool → ℕ → ℕ
admitted true tokens = tokens
admitted false tokens = 0

-- A bucket never holds more than its burst.
abbrev pub IsBounded : TokenBucket → Type 0
IsBounded k = k.tokens ≤ k.burst * 1000

-- After a refill the bucket is within its burst, whatever it held before, and taking tokens out
-- keeps it there; the burst and the rate stay.
pub consume-IsBounded :
    (now tokens : ℕ) (k : TokenBucket)
    → let k' = (consume now tokens k).0 in
      IsBounded k' × (k'.rate ≡ k.rate) × (k'.burst ≡ k.burst) × (k'.last_refill ≡ now)
unfolding consume
consume-IsBounded now tokens k = ground arith

-- What is taken and what is left came from what was there and from the refill.
pub consume_balance :
    (now tokens : ℕ) (k : TokenBucket)
    → let (k', allowed) = consume now tokens k in
      admitted allowed tokens + k'.tokens ≤ k.tokens + (now - k.last_refill) * k.rate
unfolding consume
consume_balance now tokens k = ground arith

-- A series of calls at one bucket: the times and the tokens that were asked for.
unfoldable pub consume_all : List (ℕ × ℕ) → TokenBucket → TokenBucket × ℕ
unfolding consume
consume_all [] k = (k, 0)
consume_all ((now, tokens) ∷ calls) k =
    let (k', allowed) = consume now tokens k in
    let (k'', total) = consume_all calls k' in (k'', admitted allowed tokens + total)

-- The times do not go back, and none is past the last.
abbrev pub IsTimed : ℕ → List (ℕ × ℕ) → ℕ → Type 0
IsTimed start [] last = start ≤ last
IsTimed start ((now, _) ∷ calls) last = (start ≤ now) × IsTimed now calls last

IsTimed-le : (start : ℕ) (calls : List (ℕ × ℕ)) (last : ℕ) → IsTimed start calls last → start ≤ last
IsTimed-le start [] last h = h
IsTimed-le start ((now, tokens) ∷ calls) last h = omega (arith, IsTimed-le now calls last h.1)

pub time_split : (s n l r : ℕ) → s ≤ n → n ≤ l → (l - s) * r ≡ (n - s) * r + (l - n) * r
time_split s n l r h k =
    let e : l - s ≡ (n - s) + (l - n) = omega arith in rw (e, add-mul (n - s) (l - n) r)

-- Whatever is asked for and when, a bucket admits in a period at most what it holds at the start
-- and its rate times the length of the period.
pub consume_all_bounded :
    (calls : List (ℕ × ℕ)) (k : TokenBucket) (last : ℕ)
    → IsTimed k.last_refill calls last
    → (consume_all calls k).1 ≤ k.tokens + (last - k.last_refill) * k.rate
unfolding consume_all
consume_all_bounded [] k last h = omega arith
consume_all_bounded ((now, tokens) ∷ calls) k last h =
    let k' = (consume now tokens k).0 in
    let (_, same_rate, _, when) = consume-IsBounded now tokens k in
    let rest = rw (when, same_rate) at (consume_all_bounded calls k' last (rw when h.1)) in
    let bal = consume_balance now tokens k in
    let split = time_split k.last_refill now last k.rate h.0 (IsTimed-le now calls last h.1) in
    omega arith
