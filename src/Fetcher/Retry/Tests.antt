-- ===== src/Fetcher/Retry/Tests.antt =====
-- internal/fetcher/retry.go: runs of the loop, and its theorems at concrete inputs.
use repodocs_go.Fetcher.Retry.Hints.{retry-Heeded, logging, for_log, timed, EndsHeeded}
use repodocs_go.Llm.Retry.Outcome.{recording, traced}
use repodocs_go.Llm.Env.{Env}
use repodocs_go.Fetcher.Retry.Returns.{retry-Last, beside_log, IsLimited, EndsLast}
use repodocs_go.Domain.Errors.{
  rate_limited, sentinel, retryable_error, nil, is_retryable, fetch_error, found, Error,
}
use repodocs_go.Base.{
  ◌+◌, zero, ◌<◌, some, [], ◌∷◌, true, suc, refl, ◌≡◌, pos, none, arith, Option, List, ℕ,
}
use repodocs_go.Fetcher.Retry.{retry_from, wait_after, retry, Backoff}

-- A world that is the list of what the next calls return; nothing cancels.
abbrev calm : Env (List Error)
calm = record { clock = λ w. 0; ctx_err = λ w. nil; sleep = λ d w. (nil, w) }

abbrev countdown : ℕ → Option ℕ × ℕ
countdown zero = (none, 0)
countdown (suc b) = (some 500, b)

-- A backoff that counts its retries down.
abbrev counting : Backoff (List Error) ℕ
counting = record { new_backoff = λ n. n; next_backoff = λ w b. countdown b }

countdown-lt : (b : ℕ) → found (countdown b).0 ≡ true → (countdown b).1 < b
countdown-lt zero h = cc
countdown-lt (suc b) h = omega arith

counting-IsLimited : IsLimited counting (λ b. b)
counting-IsLimited = record { made = λ n. omega arith; used = λ w b. countdown-lt b }

abbrev pop_error : List Error → Error × List Error
pop_error [] = (nil, [])
pop_error (e ∷ w) = (e, w)

abbrev busy : Error
busy = fetch_error "https://a/" 503 (sentinel rate_limited)

second_call_test :
    retry (traced calm) (beside_log counting) 3 (pos 2) (recording pop_error) (busy ∷ nil ∷ [], [])
    ≡ some (nil, ([], nil ∷ busy ∷ []))
unfolding retry retry_from is_retryable
second_call_test = refl

retry_after_test : wait_after (retryable_error busy (pos 7)) 500 ≡ 7_000_000_000
unfolding wait_after
retry_after_test = refl

retry-Last_example : EndsLast 2 (
    retry (traced calm) (beside_log counting) 3 (pos 2) (recording pop_error) (busy ∷ nil ∷ [], []))
retry-Last_example =
    retry-Last calm counting pop_error (λ b. b) counting-IsLimited (pos 2) (busy ∷ nil ∷ [])

-- A world with a clock too.
abbrev ticking : Env (ℕ × List Error)
ticking = record { clock = λ w. w.0; ctx_err = λ w. nil; sleep = λ d w. (nil, (w.0 + d, w.1)) }

abbrev ticking_backoff : Backoff (ℕ × List Error) ℕ
ticking_backoff = record { new_backoff = λ n. n; next_backoff = λ w b. countdown b }

abbrev request : (ℕ × List Error) → Error × (ℕ × List Error)
request w = ((pop_error w.1).0, (w.0 + 1, (pop_error w.1).1))

abbrev told_to_wait : Error
told_to_wait = retryable_error busy (pos 7)

retry-Heeded_example : EndsHeeded (
    retry
      (timed ticking)
      (for_log ticking_backoff)
      3
      (pos 2)
      (logging ticking request)
      ((0, told_to_wait ∷ nil ∷ []), []))
retry-Heeded_example =
    retry-Heeded ticking ticking_backoff request (λ d w _. omega arith) (λ w. omega arith) 3 (pos 2)
      (0, told_to_wait ∷ nil ∷ [])
