-- ===== src/Llm/Breaker/Invariant.antt =====
-- internal/llm/circuit_breaker.go: what holds between two calls of a breaker.
use repodocs_go.Base.{ℕ, ◌≤◌, ◌<◌, ◌≡◌, ◌≢◌, refl, List, [], ◌∷◌, arith, positive_or-pos}
use repodocs_go.Llm.Breaker.{
  closed, half_open, CircuitBreakerConfig, CircuitBreaker, new_circuit_breaker, allow,
  record_success, record_failure, Call, ask, succeeded, failed, step, run,
}

pub record IsValid (cb : CircuitBreaker) : Type 0 where
  pub failure_threshold_pos : 0 < cb.config.failure_threshold
  pub success_threshold_pos : 0 < cb.config.success_threshold_half_open
  pub reset_timeout_pos : 0 < cb.config.reset_timeout
  pub failures_below : cb.failures < cb.config.failure_threshold
  pub probing_below : cb.state ≡ half_open → cb.successes < cb.config.success_threshold_half_open
  pub probes_capped : cb.half_open_allowed ≤ cb.config.success_threshold_half_open
  pub probes_only_half_open : cb.state ≢ half_open → cb.half_open_allowed ≡ 0
  pub failures_only_closed : cb.state ≢ closed → cb.failures ≡ 0

pub new-IsValid : (c : CircuitBreakerConfig) (now : ℕ) → IsValid (new_circuit_breaker c now)
unfolding new_circuit_breaker
new-IsValid c now =
    let f = positive_or-pos 5 c.failure_threshold (omega arith) in
    let s = positive_or-pos 1 c.success_threshold_half_open (omega arith) in
    let r = positive_or-pos 30_000_000_000 c.reset_timeout (omega arith) in
    record {
      failure_threshold_pos = f;
      success_threshold_pos = s;
      reset_timeout_pos = r;
      failures_below = f;
      probing_below = λ e. cc;
      probes_capped = omega arith;
      probes_only_half_open = λ _. refl;
      failures_only_closed = λ _. refl;
    }

pub step-IsValid : (c : Call) (cb : CircuitBreaker) → IsValid cb → IsValid (step c cb)
unfolding allow record_success record_failure
step-IsValid (ask now) cb v = ground arith
step-IsValid (succeeded now) cb v = ground arith
step-IsValid (failed now) cb v = ground arith

pub run-IsValid : (cs : List Call) (cb : CircuitBreaker) → IsValid cb → IsValid (run cs cb)
run-IsValid [] cb v = v
run-IsValid (c ∷ cs) cb v = run-IsValid cs (step c cb) (step-IsValid c cb v)

-- Whatever settings a breaker is made with, and whatever calls it then gets in whatever order, its
-- thresholds are positive, fewer failures are counted than trip it, a half-open breaker has counted
-- fewer successes than close it, at most `success_threshold_half_open` probes are counted and only
-- while it is half open, and failures are counted only while it is closed.
pub new-run-IsValid :
    (c : CircuitBreakerConfig) (now : ℕ) (cs : List Call)
    → IsValid (run cs (new_circuit_breaker c now))
new-run-IsValid c now cs = run-IsValid cs _ (new-IsValid c now)
