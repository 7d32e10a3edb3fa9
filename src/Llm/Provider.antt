-- ===== src/Llm/Provider.antt =====
-- internal/llm/provider_wrapper.go: a provider behind the circuit breaker, the retrier and the rate
-- limiter. The wrapped provider and the limiter are the interfaces that they are in the source; there
-- is no logger, so `Available` is not asked.
mod Tokens
mod Guarded
mod Tests
use repodocs_go.Base.{ℕ, Bool, true, false, Option, none, some, if◌then◌else◌, ℤ}
use repodocs_go.Domain.Errors.{Error, nil, sentinel, wrapped, is_nil, llm_circuit_open}
use repodocs_go.Llm.Env.{Env}
use repodocs_go.Llm.Breaker.{CircuitBreaker, allow, record_success, record_failure}
use repodocs_go.Llm.Retry.{execute}

-- The interface `CircuitBreaker`: the breaker, or NoOpCircuitBreaker.
pub data Breaker : Type 0 where
  breaker : CircuitBreaker → Breaker
  no_op : Breaker

unfoldable pub ask : ℕ → Breaker → Breaker × Bool
unfolding allow
ask now (breaker cb) = let (cb', allowed) = allow now cb in (breaker cb', allowed)
ask now no_op = (no_op, true)

unfoldable pub succeed : ℕ → Breaker → Breaker
unfolding record_success
succeed now (breaker cb) = breaker (record_success now cb)
succeed now no_op = no_op

unfoldable pub fail : ℕ → Breaker → Breaker
unfolding record_failure
fail now (breaker cb) = breaker (record_failure now cb)
fail now no_op = no_op

-- What the wrapper is made of: the limiter's `Wait` on its state `L`, and the provider's `Complete`.
pub record Parts (W L R : Type 0) : Type 0 where
  pub env : Env W
  pub wait : L → W → Error × L × W
  pub provider : W → Option R × Error × W
  pub backoff : ℕ → ℕ
  pub max_retries : ℤ

-- The world of the closure that `Execute` is given, which assigns the variable `response`.
abbrev pub inside : {W L R : Type 0} → Parts W L R → Env (Option R × L × W)
inside p = record {
  clock = λ s. p.env.clock s.2;
  ctx_err = λ s. p.env.ctx_err s.2;
  sleep = λ d s. ((p.env.sleep d s.2).0, (s.0, s.1, (p.env.sleep d s.2).1));
}

unfoldable pub operation :
    {W L R : Type 0} → Parts W L R → (Option R × L × W) → Error × (Option R × L × W)
operation p (response, l, w) =
    let (waited, l', w') = p.wait l w in
    let (response', err, w'') = p.provider w' in
    if is_nil waited
    then (err, (response', l', w''))
    else (wrapped "rate limit wait cancelled: %w" waited, (response, l', w'))

unfoldable pub complete :
    {W L R : Type 0} → Parts W L R → Breaker → L → W → Option R × Error × Breaker × L × W
complete p b l w =
    let (b', allowed) = ask (p.env.clock w) b in
    let (err, (response, l', w')) =
      execute (inside p) p.backoff (operation p) p.max_retries (none, l, w) in
    if allowed
    then (if is_nil err
        then (response, nil, succeed (p.env.clock w') b', l', w')
        else (none, err, fail (p.env.clock w') b', l', w'))
    else (none, sentinel llm_circuit_open, b', l, w)
