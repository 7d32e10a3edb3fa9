-- ===== src/Fetcher/Retry.antt =====
-- internal/fetcher/retry.go. The backoff of github.com/cenkalti/backoff is a parameter with a state of
-- type `B`: how one is made for a number of retries, and `NextBackOff`, which gives `none` for Stop.
mod Returns
mod Copies
mod Hints
mod Tests
use repodocs_go.Base.{
  zero, leb, ◌&&◌, true, not, negsuc, ◌==◌, suc, pos, ltb, ◌*◌, some, positive_or, none,
  if◌then◌else◌, ℤ, Option, Bool, ℕ,
}
use repodocs_go.Domain.Errors.{found, is_retryable, is_nil, nil, as_retryable, Error}
use repodocs_go.Llm.Env.{Env}

-- `opts.MaxRetries` in `NewRetrier`
abbrev pub retries_of : ℤ → ℕ
retries_of = positive_or 3

pub record Backoff (W B : Type 0) : Type 0 where
  pub new_backoff : ℕ → B
  pub next_backoff : W → B → Option ℕ × B

-- time.Second
abbrev pub second : ℕ
second = 1_000_000_000

-- The seconds of a RetryableError with a Retry-After that is positive, else 0.
abbrev pub hint : Option ℤ → ℕ
hint none = 0
hint (some (pos n)) = n
hint (some (negsuc n)) = 0

-- The wait after an error, of which the backoff said `d`.
unfoldable pub wait_after : Error → ℕ → ℕ
unfolding as_retryable
wait_after err d =
    let retry_after = hint (as_retryable err) * second in
    if ltb 0 (hint (as_retryable err)) && ltb d retry_after then retry_after else d

abbrev pub or_zero : Option ℕ → ℕ
or_zero none = 0
or_zero (some d) = d

module _ {W B : Type 0} (env : Env W) (backoff : Backoff W B) where
  -- The loop of `Retry`, with fuel; `none` means that it ran out.
  unfoldable pub retry_from : (W → Error × W) → ℕ → B → Error → W → Option (Error × W)
  retry_from operation zero b last_err w = none
  retry_from operation (suc fuel) b last_err w =
      let (err, w') = operation w in
      let (wait, b') = backoff.next_backoff w' b in
      let (cancelled, w'') = env.sleep (wait_after err (or_zero wait)) w' in
      let rest = retry_from operation fuel b' err w'' in
      if not (is_nil (env.ctx_err w))
      then some (if is_nil last_err then env.ctx_err w else last_err, w)
      else if is_nil err
      then some (nil, w')
      else if not (is_retryable err)
      then some (err, w')
      else if not (found wait)
      then some (err, w')
      else if is_nil cancelled
      then rest
      else some (err, w'')

  unfoldable pub retry : ℕ → ℤ → (W → Error × W) → W → Option (Error × W)
  retry fuel max_retries operation w =
      retry_from operation fuel (backoff.new_backoff (retries_of max_retries)) nil w

  -- The loop of `RetryWithValue`.
  module _ {T : Type 0} where
    unfoldable pub retry_with_value_from :
        (W → T × Error × W) → ℕ → B → T → Error → W → Option (T × Error × W)
    retry_with_value_from operation zero b result last_err w = none
    retry_with_value_from operation (suc fuel) b result last_err w =
        let (result', err, w') = operation w in
        let (wait, b') = backoff.next_backoff w' b in
        let (cancelled, w'') = env.sleep (wait_after err (or_zero wait)) w' in
        let rest = retry_with_value_from operation fuel b' result' err w'' in
        if not (is_nil (env.ctx_err w))
        then some (result, if is_nil last_err then env.ctx_err w else last_err, w)
        else if is_nil err
        then some (result', nil, w')
        else if not (is_retryable err)
        then some (result', err, w')
        else if not (found wait)
        then some (result', err, w')
        else if is_nil cancelled
        then rest
        else some (result', err, w'')

    -- `zero_value` is what `var result T` holds.
    unfoldable pub retry_with_value : T → ℕ → ℤ → (W → T × Error × W) → W → Option (T × Error × W)
    retry_with_value zero_value fuel max_retries operation w =
        retry_with_value_from operation fuel (backoff.new_backoff (retries_of max_retries))
          zero_value nil w

unfoldable pub should_retry_status : ℕ → Bool
should_retry_status code =
    if code == 429
    then true
    else if code == 502
    then true
    else if code == 503
    then true
    else if code == 504
    then true
    else leb 520 code && leb code 530
