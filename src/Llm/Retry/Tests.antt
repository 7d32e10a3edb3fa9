-- ===== src/Llm/Retry/Tests.antt =====
-- internal/llm/retry.go: runs of the loop, and its theorem at a concrete input.
use repodocs_go.Base.{refl, true, [], ◌∷◌, pos, false, List, ◌≡◌}
use repodocs_go.Llm.Retry.{exceeded, is_retryable_error, execute}
use repodocs_go.Llm.Env.{Env}
use repodocs_go.Domain.Errors.{
  url_error, nil, llm_rate_limited, deadline_exceeded, sentinel, wrapped, llm_error, Error,
}
use repodocs_go.Llm.Retry.Outcome.{traced, recording, Ends, execute-Ends}

-- A world that is the list of what the next calls return; nothing cancels.
abbrev calm : Env (List Error)
calm = record { clock = λ w. 0; ctx_err = λ w. nil; sleep = λ d w. (nil, w) }

abbrev pop_error : List Error → Error × List Error
pop_error [] = (nil, [])
pop_error (e ∷ w) = (e, w)

abbrev limited : Error
limited = llm_error "openai" 429 "slow down" (sentinel llm_rate_limited)

recovers_at_third :
    execute (traced calm) (λ n. 0) (recording pop_error) (pos 3) (limited ∷ limited ∷ nil ∷ [], [])
    ≡ (nil, ([], nil ∷ limited ∷ limited ∷ []))
unfolding execute is_retryable_error
recovers_at_third = refl

gives_up_after_two :
    execute (traced calm) (λ n. 0) (recording pop_error) (pos 1) (limited ∷ limited ∷ nil ∷ [], [])
    ≡ (exceeded limited, (nil ∷ [], limited ∷ limited ∷ []))
unfolding execute is_retryable_error
gives_up_after_two = refl

-- The deadline of the context is not retried, the timeout of an HTTP client is, although it wraps it.
timeouts :
    (is_retryable_error (wrapped "rate limit wait cancelled: %w" (sentinel deadline_exceeded))
      ≡ false)
    × (is_retryable_error (url_error true (sentinel deadline_exceeded)) ≡ true)
unfolding is_retryable_error
timeouts = (refl, refl)

execute-Ends_example :
    Ends calm
      (λ n. 0)
      1
      (execute (traced calm) (λ n. 0) (recording pop_error) (pos 1) (limited ∷ nil ∷ [], [])).1.0
      (execute (traced calm) (λ n. 0) (recording pop_error) (pos 1) (limited ∷ nil ∷ [], [])).1.1
      (execute (traced calm) (λ n. 0) (recording pop_error) (pos 1) (limited ∷ nil ∷ [], [])).0
execute-Ends_example = execute-Ends calm (λ n. 0) pop_error (pos 1) (limited ∷ nil ∷ [])
