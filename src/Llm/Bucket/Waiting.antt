-- ===== src/Llm/Bucket/Waiting.antt =====
-- internal/llm/ratelimit.go: `Wait` comes back.
use repodocs_go.Llm.Env.{Punctual}
use native.Mathlib.Nat.{div-add-mod', mod-lt}
use repodocs_go.Base.{
  refl, ◌∙◌, none, ◌⊎◌, suc, some, Option, inr, inl, Bool-cases, ◌/◌, true, ℕ, ◌+◌, ◌-◌, ◌*◌, ◌≤◌,
  ◌<◌, ◌≡◌, false, arith,
}
use repodocs_go.Llm.Bucket.{
  nil, wait_duration, is_nil, wait_from, Error, Env, one, TokenBucket, try_acquire,
}

-- A refusal leaves less than a token, and all that came in since.
refused :
    (t : ℕ) (tb : TokenBucket)
    → one ≤ tb.capacity
    → (try_acquire t tb).0 ≡ false
    → ((try_acquire t tb).1.tokens < one)
      × ((try_acquire t tb).1.tokens ≡ tb.tokens + (t - tb.last_refill) * tb.refill_rate)
unfolding try_acquire
refused t tb room h = ground arith

kept :
    (t : ℕ) (tb : TokenBucket)
    → ((try_acquire t tb).1.last_refill ≡ t)
      × ((try_acquire t tb).1.refill_rate ≡ tb.refill_rate)
      × ((try_acquire t tb).1.capacity ≡ tb.capacity)
unfolding try_acquire
kept t tb = ground arith

-- A bucket that lacks at most what a nanosecond brings has a token at the next reading of the clock.
next_granted :
    (t : ℕ) (tb : TokenBucket)
    → one ≤ tb.capacity
    → one ≤ tb.tokens + tb.refill_rate
    → tb.last_refill < t
    → (try_acquire t tb).0 ≡ true
next_granted t tb room near later = elim (Bool-cases (try_acquire t tb).0) [
  | inl taken ↦ taken
  | inr no_token ↦
      let (short, same) = refused t tb room no_token in
      let more : tb.refill_rate ≤ (t - tb.last_refill) * tb.refill_rate = grind arith in
      absurd (omega arith)
]

-- What is missing after a whole wait.
nearly_there :
    (missing rate waited : ℕ) → 0 < rate → missing / rate ≤ waited → missing ≤ waited * rate + rate
nearly_there missing rate waited pos_rate h =
    let scaled : missing / rate * rate ≤ waited * rate = grind arith in
    omega (arith, div-add-mod' missing rate, mod-lt missing pos_rate, scaled)

-- What a waiter finds in the world: the clock does not go back, and a wait takes time.
abbrev pub TakesTime : {W : Type 0} → Env W → Type 0
TakesTime {W} env = (d : ℕ) (w : W) → env.clock w < env.clock (env.sleep d w).1

-- `Wait` came back: with a token taken, and none too many left, or with the context's error.
abbrev pub Returned : {W : Type 0} → TokenBucket → Option (Error × TokenBucket × W) → Type 0
Returned tb none = ⊥
Returned tb (some (err, tb', w)) =
    ((err ≡ nil) × (tb'.tokens + one ≤ tb.capacity)) ⊎ (is_nil err ≡ false)

spent :
    (t : ℕ) (tb : TokenBucket)
    → (try_acquire t tb).0 ≡ true
    → (try_acquire t tb).1.tokens + one ≤ tb.capacity
unfolding try_acquire
spent t tb h = ground arith

module _ {W : Type 0} (env : Env W) where
  abbrev bucket_after : TokenBucket → W → TokenBucket
  bucket_after tb w = (try_acquire (env.clock w) tb).1

  abbrev slept : TokenBucket → W → Error × W
  slept tb w = env.sleep (wait_duration (bucket_after tb w)) w

  -- One round: it ends the loop unless no token was there and the timer fired.
  round :
      (whole : TokenBucket) (fuel : ℕ) (tb : TokenBucket) (w : W)
      → tb.capacity ≡ whole.capacity
      → ((try_acquire (env.clock w) tb).0 ≡ false
          → is_nil (slept tb w).0 ≡ true
          → Returned whole (wait_from env fuel (bucket_after tb w) (slept tb w).1))
      → Returned whole (wait_from env (suc fuel) tb w)
  unfolding wait_from
  round whole fuel tb w same rest = elim (Bool-cases (try_acquire (env.clock w) tb).0) [
    | inl taken ↦ rw taken (inl (refl, omega (arith, spent (env.clock w) tb taken)))
    | inr no_token ↦ elim (Bool-cases (is_nil (slept tb w).0)) [
      | inl fired ↦ rw (no_token, fired) (rest no_token fired)
      | inr cancelled ↦ rw (no_token, cancelled) (inr cancelled)
    ]
  ]

  module _ (punctual : Punctual env) (takes_time : TakesTime env) where
    third_round :
        (whole : TokenBucket) (n : ℕ) (tb : TokenBucket) (w : W)
        → tb.capacity ≡ whole.capacity
        → one ≤ whole.capacity
        → one ≤ tb.tokens + tb.refill_rate
        → tb.last_refill < env.clock w
        → Returned whole (wait_from env (suc n) tb w)
    third_round whole n tb w same room near later =
        round whole n tb w same
          λ no_token fired. cc (next_granted (env.clock w) tb (rw same room) near later)

    second_round :
        (whole : TokenBucket) (n : ℕ) (tb : TokenBucket) (w : W)
        → tb.capacity ≡ whole.capacity
        → one ≤ whole.capacity
        → 0 < tb.refill_rate
        → tb.tokens < one
        → tb.last_refill + wait_duration tb ≤ env.clock w
        → Returned whole (wait_from env (suc (suc n)) tb w)
    second_round whole n tb w same room rate_pos short waited =
        round whole (suc n) tb w same λ no_token fired.
          let (l, r, c) = kept (env.clock w) tb in
          let (_, filled) = refused (env.clock w) tb (rw same room) no_token in
          let enough =
            nearly_there (one - tb.tokens) tb.refill_rate (env.clock w - tb.last_refill) rate_pos
              (omega arith) in
          third_round whole n (bucket_after tb w) (slept tb w).1 (c ∙ same) room (omega arith)
            (omega (arith, takes_time (wait_duration (bucket_after tb w)) w))

    -- A waiter that nobody else takes tokens from comes back after at most three readings of the
    -- clock, with a token or with the error of its context: the first finds what is missing, the
    -- second comes after the time for it, cut to whole nanoseconds, and the third has the rest.
    pub wait_returns :
        (n : ℕ) (tb : TokenBucket) (w : W)
        → one ≤ tb.capacity
        → 0 < tb.refill_rate
        → Returned tb (wait_from env (suc (suc (suc n))) tb w)
    wait_returns n tb w room rate_pos = round tb (suc (suc n)) tb w refl λ no_token fired.
        let (l, r, c) = kept (env.clock w) tb in
        let (short, _) = refused (env.clock w) tb room no_token in
        second_round tb n (bucket_after tb w) (slept tb w).1 c room (omega arith) short
          (omega (arith, punctual (wait_duration (bucket_after tb w)) w fired))
