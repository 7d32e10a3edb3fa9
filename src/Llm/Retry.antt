-- ===== src/Llm/Retry.antt =====
-- internal/llm/retry.go: which errors are retried, and the loop of `Execute`. The length of a pause is
-- a function `backoff` of the attempt: `calculateBackoff` draws it at random in float64.
pub mod Outcome
pub mod Keeps
mod Tests
use repodocs_go.Base.{
  ℕ, zero, suc, ◌+◌, Bool, true, false, ◌||◌, not, Option, none, some, ◌==◌, if◌then◌else◌, ℤ,
  clamp_zero,
}
use repodocs_go.Domain.Errors.{
  Error, nil, sentinel, wrapped, is_nil, is, as_url, as_llm, as_fetch, canceled, deadline_exceeded,
  llm_rate_limited, llm_max_retries_exceeded,
}
use repodocs_go.Llm.Env.{Env}

-- 429, 500, 502, 503 and 504
unfoldable pub should_retry_status_code : ℕ → Bool
should_retry_status_code c = c == 429 || c == 500 || c == 502 || c == 503 || c == 504

abbrev is_timeout : Option Bool → Bool
is_timeout none = false
is_timeout (some t) = t

-- The last two tests of `IsRetryableError`, by what `errors.As` finds.
abbrev by_status : Option ℕ → Option ℕ → Bool
by_status (some c) _ = should_retry_status_code c
by_status none (some c) = should_retry_status_code c
by_status none none = false

unfoldable pub is_retryable_error : Error → Bool
unfolding as_url as_llm as_fetch is should_retry_status_code
is_retryable_error e =
    if is_nil e
    then false
    else if is_timeout (as_url e)
    then true
    else if is e canceled || is e deadline_exceeded
    then false
    else if is e llm_rate_limited
    then true
    else by_status (as_llm e) (as_fetch e)

-- fmt.Errorf("%w: %v", domain.ErrLLMMaxRetriesExceeded, lastErr): the last error is only printed.
abbrev pub exceeded : Error → Error
exceeded last_err = wrapped "%w: %v" (sentinel llm_max_retries_exceeded)

-- `if config.MaxRetries < 0 { config.MaxRetries = 0 }` of `NewRetrier`.
abbrev pub max_retries_of : ℤ → ℕ
max_retries_of = clamp_zero

module _ {W : Type 0} (env : Env W) (backoff : ℕ → ℕ) (operation : W → Error × W) where
  -- The body of the loop up to the test of the attempts left, and `next` for what follows that.
  attempt_once : (Error → W → Error × W) → W → Error × W
  attempt_once next w =
      let (last_err, w') = operation w in
      if not (is_nil (env.ctx_err w))
      then (env.ctx_err w, w)
      else if is_nil last_err
      then (nil, w')
      else if not (is_retryable_error last_err)
      then (last_err, w')
      else next last_err w'

  -- The loop, with `left` retries to go after attempt number `attempt`.
  unfoldable pub execute_from : ℕ → ℕ → W → Error × W
  unfolding attempt_once
  execute_from zero attempt = attempt_once (λ last_err w. (exceeded last_err, w))
  execute_from (suc left) attempt = attempt_once λ last_err w.
      let (cancelled, w') = env.sleep (backoff attempt) w in
      let rest = execute_from left (attempt + 1) w' in
      if is_nil cancelled then rest else (cancelled, w')

  unfoldable pub execute : ℤ → W → Error × W
  unfolding execute_from
  execute max_retries w = execute_from (max_retries_of max_retries) 0 w
