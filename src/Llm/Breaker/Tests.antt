-- ===== src/Llm/Breaker/Tests.antt =====
-- internal/llm/circuit_breaker.go: runs of a breaker, and its theorems at concrete inputs.
use repodocs_go.Base.{◌≡◌, refl, true, false, [], ◌∷◌, pos, negsuc}
use repodocs_go.Llm.Breaker.{
  CircuitBreaker, CircuitBreakerConfig, new_circuit_breaker, allow, record_failure, ask, failed,
  run,
}
use repodocs_go.Llm.Breaker.Invariant.{IsValid, new-IsValid, run-IsValid}
use repodocs_go.Llm.Breaker.Trip.{answers}

-- Two failures trip it, one success closes it, and it rests for 10 ns; two of these are defaults'
-- stand-ins for -1 and 0.
abbrev small : CircuitBreakerConfig
small = record {
  failure_threshold = pos 2;
  success_threshold_half_open = pos 0;
  reset_timeout = pos 10;
}

abbrev tripped : CircuitBreaker
tripped = run (failed 3 ∷ failed 4 ∷ []) (new_circuit_breaker small 0)

tripped-IsValid : IsValid tripped
tripped-IsValid = run-IsValid (failed 3 ∷ failed 4 ∷ []) _ (new-IsValid small 0)

default_thresholds :
    (new_circuit_breaker
      (record {
        failure_threshold = negsuc 0;
        success_threshold_half_open = pos 0;
        reset_timeout = pos 7;
      })
      0).config
    ≡ record { failure_threshold = 5; success_threshold_half_open = 1; reset_timeout = 7 }
unfolding new_circuit_breaker
default_thresholds = refl

-- The second request at the same instant is admitted too, although one success closes the breaker.
second_probe : answers (ask 14 ∷ ask 14 ∷ ask 14 ∷ []) tripped ≡ true ∷ true ∷ false ∷ []
unfolding new_circuit_breaker allow record_failure
second_probe = refl
