-- ===== src/Llm/Provider/Tests.antt =====
-- internal/llm/provider_wrapper.go: runs of the wrapper, and its theorems at concrete inputs.
use repodocs_go.Llm.Retry.{execute, is_retryable_error}
use repodocs_go.Domain.Errors.{nil, llm_error}
use repodocs_go.Base.{ℕ, ◌+◌, some, refl, ◌==◌, pos, if◌then◌else◌, none, [], ◌≡◌, ◌∷◌}
use repodocs_go.Llm.Provider.{operation, fail, succeed, ask, no_op, Parts, complete}
use repodocs_go.Llm.Provider.Tokens.{counted, calls-eq-tokens}
use repodocs_go.Llm.Breaker.{CircuitBreaker, new_circuit_breaker, run, failed}
use repodocs_go.Llm.Breaker.Invariant.{IsValid, new-IsValid, run-IsValid}

-- The provider fails once with 429 and then answers 7; the limiter always grants; no time passes.
abbrev flaky : Parts ℕ (Unit {0}) ℕ
flaky = record {
  env = record { clock = λ w. 0; ctx_err = λ w. nil; sleep = λ d w. (nil, w) };
  wait = λ l w. (nil, l, w);
  provider = λ w. if w == 0 then (none, llm_error "x" 429 "slow" nil, 1) else (some 7, nil, w + 1);
  backoff = λ n. 0;
  max_retries = pos 3;
}

abbrev shut : CircuitBreaker
shut = run (failed 0 ∷ []) (
    new_circuit_breaker
      (record {
        failure_threshold = pos 1;
        success_threshold_half_open = pos 1;
        reset_timeout = pos 5;
      })
      0)

shut-IsValid : IsValid shut
shut-IsValid = run-IsValid (failed 0 ∷ []) _ (new-IsValid _ 0)

answers_at_second : complete flaky no_op tt 0 ≡ (some 7, nil, no_op, tt, 2)
unfolding complete ask succeed fail operation execute is_retryable_error
answers_at_second = refl

calls-eq-tokens_example :
    let (response, err, b', l', w') = complete (counted flaky) no_op (tt, 0) (0, 0) in l'.1 ≡ w'.1
calls-eq-tokens_example = calls-eq-tokens flaky no_op tt 0
