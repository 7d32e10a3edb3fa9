-- ===== src/Llm/Bucket/Rate.antt =====
-- internal/llm/ratelimit.go: how many tokens a bucket gives away.
use repodocs_go.Base.{
  ◌∙◌, subst, refl, length, ℕ, ◌+◌, ◌-◌, ◌*◌, ◌≤◌, ◌≡◌, Bool, true, false, List, [], ◌∷◌, arith, ℤ,
  positive_or,
}
use repodocs_go.Llm.Bucket.{one, TokenBucket, new_token_bucket, try_acquire}

-- Times that do not go back, from `t` on.
abbrev pub Ordered : ℕ → List ℕ → Type 0
Ordered t [] = Unit
Ordered t (u ∷ us) = (t ≤ u) × Ordered u us

-- The last of them.
abbrev pub end_of : ℕ → List ℕ → ℕ
end_of t [] = t
end_of t (u ∷ us) = end_of u us

abbrev one_if : Bool → ℕ
one_if true = 1
one_if false = 0

-- How many of the attempts, at those times, were granted a token.
abbrev pub grants : List ℕ → TokenBucket → ℕ
grants [] tb = 0
grants (t ∷ ts) tb = one_if (try_acquire t tb).0 + grants ts (try_acquire t tb).1

end_of-ge : (t : ℕ) (ts : List ℕ) → Ordered t ts → t ≤ end_of t ts
end_of-ge t [] o = omega arith
end_of-ge t (u ∷ us) (h, o) = omega (arith, end_of-ge u us o)

spans_add : (a b c r : ℕ) → a ≤ b → b ≤ c → (b - a) * r + (c - b) * r ≡ (c - a) * r
spans_add a b c r h k = grind arith

paid :
    (t : ℕ) (tb : TokenBucket)
    → one_if (try_acquire t tb).0 * one + (try_acquire t tb).1.tokens
      ≤ tb.tokens + (t - tb.last_refill) * tb.refill_rate
unfolding try_acquire
paid t tb = ground arith

kept :
    (t : ℕ) (tb : TokenBucket)
    → ((try_acquire t tb).1.last_refill ≡ t)
      × ((try_acquire t tb).1.refill_rate ≡ tb.refill_rate)
      × ((try_acquire t tb).1.capacity ≡ tb.capacity)
      × ((try_acquire t tb).1.tokens ≤ tb.capacity)
unfolding try_acquire
kept t tb = ground arith

grants_from :
    (ts : List ℕ) (start rate : ℕ) (tb : TokenBucket)
    → tb.last_refill ≡ start
    → tb.refill_rate ≡ rate
    → Ordered start ts
    → grants ts tb * one ≤ tb.tokens + (end_of start ts - start) * rate
grants_from [] start rate tb l r o = omega arith
grants_from (t ∷ ts) start rate tb l r (h, o) =
    let (l', r', _, _) = kept t tb in
    omega (
      arith,
      grants_from ts t rate (try_acquire t tb).1 l' (r' ∙ r) o,
      spans_add start t (end_of t ts) rate h (end_of-ge t ts o),
      subst
          (λ x.
            one_if (try_acquire t tb).0 * one + (try_acquire t tb).1.tokens
            ≤ tb.tokens + (t - x) * rate)
          l
          (subst
            (λ y.
              one_if (try_acquire t tb).0 * one + (try_acquire t tb).1.tokens
              ≤ tb.tokens + (t - tb.last_refill) * y)
            r (paid t tb)),
    )

-- However many goroutines ask a new limiter, at whatever times, the tokens that it has granted are at
-- most the burst and what `requests_per_minute` allows for the time since it was made, at a time when
-- the clock has not gone back: in units of a token, `burst + rate * elapsed`.
pub new-grants_bounded :
    (requests_per_minute burst_size : ℤ) (start : ℕ) (ts : List ℕ)
    → Ordered start ts
    → grants ts (new_token_bucket requests_per_minute burst_size start) * one
      ≤ positive_or 1 burst_size * one
        + (end_of start ts - start) * positive_or 60 requests_per_minute
unfolding new_token_bucket
new-grants_bounded rpm burst start ts o =
    grants_from ts start (positive_or 60 rpm) (new_token_bucket rpm burst start) refl refl o

-- Times that each come at least `gap` after the one before, from `t` on.
abbrev pub Spaced : ℕ → ℕ → List ℕ → Type 0
Spaced gap t [] = Unit
Spaced gap t (u ∷ us) = (t + gap ≤ u) × Spaced gap u us

granted :
    (gap t : ℕ) (tb : TokenBucket)
    → one ≤ gap * tb.refill_rate
    → one ≤ tb.capacity
    → tb.last_refill + gap ≤ t
    → (try_acquire t tb).0 ≡ true
unfolding try_acquire
granted gap t tb enough room h =
    let more : gap * tb.refill_rate ≤ (t - tb.last_refill) * tb.refill_rate = grind arith in
    ground arith

-- A caller that keeps its requests at least a token's time apart, and to a bucket that holds a token,
-- is never refused.
pub Spaced-granted :
    (gap start rate : ℕ) (ts : List ℕ) (tb : TokenBucket)
    → one ≤ gap * rate
    → tb.refill_rate ≡ rate
    → one ≤ tb.capacity
    → tb.last_refill ≡ start
    → Spaced gap start ts
    → grants ts tb ≡ length ts
Spaced-granted gap start rate [] tb enough r room l s = refl
Spaced-granted gap start rate (t ∷ ts) tb enough r room l (h, s) =
    let (l', r', c', _) = kept t tb in
    let now : (try_acquire t tb).0 ≡ true =
      granted gap t tb (rw r enough) room (omega (arith, l)) in
    rw now (
      omega (
        arith,
        Spaced-granted gap t rate ts (try_acquire t tb).1 enough (r' ∙ r) (rw c' room) l' s,
      ))
