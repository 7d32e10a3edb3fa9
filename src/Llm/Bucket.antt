-- ===== src/Llm/Bucket.antt =====
-- internal/llm/ratelimit.go. The source counts tokens in float64; here they are exact, in units of a
-- 60 · 10⁹th of a token, so that a nanosecond adds `requests_per_minute` units. Rounding aside the
-- two agree, and no operation below leaves the integers but the wait, which Go truncates as well.
mod Rate
mod Waiting
mod Tests
use repodocs_go.Base.{
  ℕ, zero, suc, ◌+◌, ◌-◌, ◌*◌, ◌/◌, Bool, true, false, List, [], ◌∷◌, Option, none, some, ltb, leb,
  if◌then◌else◌, ℤ, positive_or,
}
use repodocs_go.Domain.Errors.{Error, nil, is_nil}
use repodocs_go.Llm.Env.{Env}

-- 1.0 token
abbrev pub one : ℕ
one = 60_000_000_000

pub record TokenBucket : Type 0 where
  pub tokens : ℕ
  pub capacity : ℕ
  pub refill_rate : ℕ  -- requests per minute, which is units per nanosecond
  pub last_refill : ℕ

unfoldable pub new_token_bucket : ℤ → ℤ → ℕ → TokenBucket
new_token_bucket requests_per_minute burst_size now =
    let burst = positive_or 1 burst_size in
    record {
      tokens = burst * one;
      capacity = burst * one;
      refill_rate = positive_or 60 requests_per_minute;
      last_refill = now;
    }

unfoldable pub refill : ℕ → TokenBucket → TokenBucket
refill now tb =
    let filled = tb.tokens + (now - tb.last_refill) * tb.refill_rate in
    record tb { tokens = if ltb tb.capacity filled then tb.capacity else filled; last_refill = now }

abbrev pub has_token : TokenBucket → Bool
has_token tb = leb one tb.tokens

abbrev pub spend : TokenBucket → TokenBucket
spend tb = record tb { tokens = tb.tokens - one }

-- What `TryAcquire` does under the lock, and each round of `Wait` too.
unfoldable pub try_acquire : ℕ → TokenBucket → Bool × TokenBucket
unfolding refill
try_acquire now tb =
    let tb' = refill now tb in if has_token tb' then (true, spend tb') else (false, tb')

unfoldable pub available : ℕ → TokenBucket → ℕ × TokenBucket
unfolding refill
available now tb = let tb' = refill now tb in (tb'.tokens, tb')

-- `time.Duration(tokensNeeded / tb.refillRate * float64(time.Second))`
abbrev pub wait_duration : TokenBucket → ℕ
wait_duration tb = (one - tb.tokens) / tb.refill_rate

-- The loop of `Wait`, with fuel; `none` means that it ran out. `tb` is what the lock protects, and
-- the waiter is the only one that takes the lock meanwhile.
module _ {W : Type 0} (env : Env W) where
  unfoldable pub wait_from : ℕ → TokenBucket → W → Option (Error × TokenBucket × W)
  wait_from zero tb w = none
  wait_from (suc fuel) tb w =
      let (taken, tb') = try_acquire (env.clock w) tb in
      let (err, w') = env.sleep (wait_duration tb') w in
      let again = wait_from fuel tb' w' in
      if taken then some (nil, tb', w) else if is_nil err then again else some (err, tb', w')
