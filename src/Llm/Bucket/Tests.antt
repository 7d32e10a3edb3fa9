-- ===== src/Llm/Bucket/Tests.antt =====
-- internal/llm/ratelimit.go: runs of a bucket, and its theorems at concrete inputs.
use repodocs_go.Base.{◌-◌, ◌+◌, refl, positive_or, pos, arith, ◌≤◌, ◌≡◌}
use repodocs_go.Llm.Bucket.{◌*◌, [], ◌∷◌, one, TokenBucket, new_token_bucket, try_acquire}
use repodocs_go.Llm.Bucket.Rate.{new-grants_bounded, grants}

-- 60 requests a minute, a burst of 2, made at time 0.
abbrev two : TokenBucket
two = new_token_bucket (pos 60) (pos 2) 0

burst_then_refill : grants (0 ∷ 0 ∷ 0 ∷ 999_999_999 ∷ 1_000_000_000 ∷ []) two ≡ 3
unfolding new_token_bucket try_acquire
burst_then_refill = refl

new-grants_bounded_example :
    grants (0 ∷ 0 ∷ 7 ∷ []) two * one
    ≤ positive_or 1 (pos 2) * one + (7 - 0) * positive_or 60 (pos 60)
new-grants_bounded_example =
    new-grants_bounded (pos 60) (pos 2) 0 (0 ∷ 0 ∷ 7 ∷ [])
      (omega arith, (omega arith, (omega arith, tt)))
