-- ===== src/Llm/Breaker.antt =====
-- internal/llm/circuit_breaker.go. A method that holds the lock is one step on the record; what
-- `time.Now()` reads is the argument `now`, in nanoseconds of a clock that does not go back.
pub mod Invariant
pub mod Trip
mod Probes
mod Tests
use repodocs_go.Base.{
  ℕ, ◌+◌, ◌-◌, ◌*◌, Bool, true, false, List, [], ◌∷◌, ltb, leb, if◌then◌else◌, ℤ, positive_or,
}

pub data CircuitState : Type 0 where
  closed open_ half_open : CircuitState

-- The settings that `NewCircuitBreaker` is given; a `time.Duration` counts nanoseconds.
pub record CircuitBreakerConfig : Type 0 where
  pub failure_threshold : ℤ
  pub success_threshold_half_open : ℤ
  pub reset_timeout : ℤ

-- The settings after the constructor's defaults, which are positive.
pub record Thresholds : Type 0 where
  pub failure_threshold : ℕ
  pub success_threshold_half_open : ℕ
  pub reset_timeout : ℕ

pub record CircuitBreaker : Type 0 where
  pub config : Thresholds
  pub state : CircuitState
  pub failures : ℕ
  pub successes : ℕ
  pub half_open_allowed : ℕ
  pub last_state_change : ℕ

abbrev pub second : ℕ
second = 1_000_000_000

unfoldable pub new_circuit_breaker : CircuitBreakerConfig → ℕ → CircuitBreaker
new_circuit_breaker c now = record {
  config = record {
    failure_threshold = positive_or 5 c.failure_threshold;
    success_threshold_half_open = positive_or 1 c.success_threshold_half_open;
    reset_timeout = positive_or (30 * second) c.reset_timeout;
  };
  state = closed;
  failures = 0;
  successes = 0;
  half_open_allowed = 0;
  last_state_change = now;
}

transition_to : CircuitState → ℕ → CircuitBreaker → CircuitBreaker
transition_to s now cb = record cb {
  state = s;
  last_state_change = now;
  failures = 0;
  successes = 0;
  half_open_allowed = 0;
}

-- `time.Since(cb.lastStateChange) >= cb.config.ResetTimeout`; the timeout is positive, so the
-- truncated difference of a clock that went back fails the test as the negative one does.
abbrev pub reset_due : ℕ → CircuitBreaker → Bool
reset_due now cb = leb cb.config.reset_timeout (now - cb.last_state_change)

allow_in : CircuitState → ℕ → CircuitBreaker → CircuitBreaker × Bool
unfolding transition_to
allow_in closed now cb = (cb, true)
allow_in open_ now cb =
    if reset_due now cb then (transition_to half_open now cb, true) else (cb, false)
allow_in half_open now cb =
    if ltb cb.half_open_allowed cb.config.success_threshold_half_open
    then (record cb { half_open_allowed = cb.half_open_allowed + 1 }, true)
    else (cb, false)

unfoldable pub allow : ℕ → CircuitBreaker → CircuitBreaker × Bool
unfolding allow_in
allow now cb = allow_in cb.state now cb

success_in : CircuitState → ℕ → CircuitBreaker → CircuitBreaker
unfolding transition_to
success_in half_open now cb =
    let cb' = record cb { successes = cb.successes + 1 } in
    if leb cb'.config.success_threshold_half_open cb'.successes
    then transition_to closed now cb'
    else cb'
success_in closed now cb = record cb { successes = cb.successes + 1 }
success_in open_ now cb = cb

unfoldable pub record_success : ℕ → CircuitBreaker → CircuitBreaker
unfolding success_in
record_success now cb = success_in cb.state now (record cb { failures = 0 })

failure_in : CircuitState → ℕ → CircuitBreaker → CircuitBreaker
unfolding transition_to
failure_in closed now cb =
    let cb' = record cb { failures = cb.failures + 1 } in
    if leb cb'.config.failure_threshold cb'.failures then transition_to open_ now cb' else cb'
failure_in half_open now cb = transition_to open_ now cb
failure_in open_ now cb = cb

unfoldable pub record_failure : ℕ → CircuitBreaker → CircuitBreaker
unfolding failure_in
record_failure now cb = failure_in cb.state now (record cb { successes = 0 })

-- One call of the breaker's interface, at a time.
pub data Call : Type 0 where
  ask : ℕ → Call
  succeeded : ℕ → Call
  failed : ℕ → Call

abbrev pub step : Call → CircuitBreaker → CircuitBreaker
step (ask now) cb = (allow now cb).0
step (succeeded now) cb = record_success now cb
step (failed now) cb = record_failure now cb

-- The calls of all goroutines, in the order in which they take the lock.
abbrev pub run : List Call → CircuitBreaker → CircuitBreaker
run [] cb = cb
run (c ∷ cs) cb = run cs (step c cb)
