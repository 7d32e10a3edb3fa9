-- ===== src/Fetcher/Retry/Copies.antt =====
-- internal/fetcher/retry.go: what the file says twice agrees, and agrees with internal/domain/errors.go.
use repodocs_go.Base.{
  ℤ, refl, zero, inl, arith, inr, none, String, Bool-cases, suc, some, ◌≡◌, Option, ℕ,
}
use repodocs_go.Domain.Errors.{nil, found, message, is_nil, fetch_error, is_retryable, Error}
use repodocs_go.Llm.Env.{Env}
use repodocs_go.Fetcher.Retry.{
  retries_of, or_zero, wait_after, should_retry_status, Backoff, retry, retry_from,
  retry_with_value, retry_with_value_from,
}

module _ {W B T : Type 0} (env : Env W) (backoff : Backoff W B)
    (operation : W → T × Error × W) where
  -- The operation and the outcome without the value.
  abbrev pub valueless : W → Error × W
  valueless w = ((operation w).1, (operation w).2)

  abbrev pub drop_value : Option (T × Error × W) → Option (Error × W)
  drop_value none = none
  drop_value (some (_, err, w)) = some (err, w)

  abbrev waiting : B → W → Option ℕ × B
  waiting b w = backoff.next_backoff (operation w).2 b

  abbrev sleeping : B → W → Error × W
  sleeping b w = env.sleep (wait_after (operation w).1 (or_zero (waiting b w).0)) (operation w).2

  retry_from-retry_with_value_from :
      (fuel : ℕ) (b : B) (result : T) (last_err : Error) (w : W)
      → retry_from env backoff valueless fuel b last_err w
        ≡ drop_value (retry_with_value_from env backoff operation fuel b result last_err w)
  unfolding retry_from retry_with_value_from
  retry_from-retry_with_value_from zero b result last_err w = refl
  retry_from-retry_with_value_from (suc fuel) b result last_err w =
      elim (Bool-cases (is_nil (env.ctx_err w))) [
        | inr done ↦ rw done refl
        | inl live ↦ elim (Bool-cases (is_nil (operation w).1)) [
          | inl fine ↦ rw (live, fine) refl
          | inr wrong ↦ elim (Bool-cases (is_retryable (operation w).1)) [
            | inr final ↦ rw (live, wrong, final) refl
            | inl again ↦ elim (Bool-cases (found (waiting b w).0)) [
              | inr stop ↦ rw (live, wrong, again, stop) refl
              | inl go ↦ elim (Bool-cases (is_nil (sleeping b w).0)) [
                | inr interrupted ↦ rw (live, wrong, again, go, interrupted) refl
                | inl woken ↦
                    rw (live, wrong, again, go, woken)
                      (retry_from-retry_with_value_from fuel (waiting b w).1 (operation w).0
                        (operation w).1 (sleeping b w).1)
              ]
            ]
          ]
        ]
      ]

  -- `Retry` and `RetryWithValue`, which spell the loop out each, do the same with an operation and
  -- the same operation without its value: they return the same error in the same world.
  pub retry-retry_with_value :
      (zero_value : T) (fuel : ℕ) (max_retries : ℤ) (w : W)
      → retry env backoff fuel max_retries valueless w
        ≡ drop_value (retry_with_value env backoff zero_value fuel max_retries operation w)
  unfolding retry retry_with_value
  retry-retry_with_value zero_value fuel max_retries w =
      retry_from-retry_with_value_from fuel (backoff.new_backoff (retries_of max_retries))
        zero_value nil w

-- For a request that failed with a status and no cause of its own, the client's test of the status and
-- the test of the error that `Retry` makes give the same answer.
pub should_retry_status-is_retryable :
    (url : String) (code : ℕ) (text : String)
    → should_retry_status code ≡ is_retryable (fetch_error url code (message text))
unfolding should_retry_status is_retryable
should_retry_status-is_retryable url code text = ground arith
