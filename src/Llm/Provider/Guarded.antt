-- ===== src/Llm/Provider/Guarded.antt =====
-- internal/llm/provider_wrapper.go: what `Complete` tells the breaker, and when it asks nobody.
use repodocs_go.Llm.Breaker.Trip.{ask_early}
use repodocs_go.Base.{refl, inl, inr, ◌⊎◌, Bool-cases, true, none, ◌+◌, ◌<◌, ◌≡◌}
use repodocs_go.Llm.Provider.{
  llm_circuit_open, sentinel, operation, is_nil, inside, Error, ℕ, execute, Option, Breaker,
  breaker, no_op, Parts, ask, succeed, fail, complete,
}
use repodocs_go.Llm.Breaker.Invariant.{IsValid, step-IsValid}
use repodocs_go.Llm.Breaker.{Call, open_, CircuitBreaker, succeeded, failed}

abbrev pub Sound : Breaker → Type 0
Sound (breaker cb) = IsValid cb
Sound no_op = Unit

ask-Sound : (now : ℕ) (b : Breaker) → Sound b → Sound (ask now b).0
unfolding ask
ask-Sound now (breaker cb) h = step-IsValid (Call.ask now) cb h
ask-Sound now no_op h = tt

succeed-Sound : (now : ℕ) (b : Breaker) → Sound b → Sound (succeed now b)
unfolding succeed
succeed-Sound now (breaker cb) h = step-IsValid (succeeded now) cb h
succeed-Sound now no_op h = tt

fail-Sound : (now : ℕ) (b : Breaker) → Sound b → Sound (fail now b)
unfolding fail
fail-Sound now (breaker cb) h = step-IsValid (failed now) cb h
fail-Sound now no_op h = tt

-- A response is handed out only without an error.
abbrev pub Proper : {R : Type 0} → Option R → Error → Type 0
Proper response err = (is_nil err ≡ true) ⊎ (response ≡ none)

module _ {W L R : Type 0} (p : Parts W L R) where
  -- `Complete` keeps the breaker's invariant, whatever provider and limiter do, and gives no response
  -- beside an error.
  pub complete-Sound :
      (b : Breaker) (l : L) (w : W)
      → Sound b
      → let (response, err, b', l', w') = complete p b l w in Sound b' × Proper response err
  unfolding complete
  complete-Sound b l w h =
      let ran = execute (inside p) p.backoff (operation p) p.max_retries (none, l, w) in
      let b' = (ask (p.env.clock w) b).0 in
      let now = p.env.clock ran.1.2 in
      elim (Bool-cases (ask (p.env.clock w) b).1) [
        | inr rejected ↦ rw rejected (ask-Sound _ b h, inr refl)
        | inl admitted ↦ elim (Bool-cases (is_nil ran.0)) [
          | inl fine ↦ rw (admitted, fine) (succeed-Sound now b' (ask-Sound _ b h), inl refl)
          | inr wrong ↦ rw (admitted, wrong) (fail-Sound now b' (ask-Sound _ b h), inr refl)
        ]
      ]

  -- While an open breaker's reset timeout lasts, `Complete` returns ErrLLMCircuitOpen at once: it takes
  -- no token, calls no provider, waits for nothing and leaves the breaker as it is.
  pub complete_open :
      (cb : CircuitBreaker) (l : L) (w : W)
      → IsValid cb
      → cb.state ≡ open_
      → p.env.clock w < cb.last_state_change + cb.config.reset_timeout
      → complete p (breaker cb) l w ≡ (none, sentinel llm_circuit_open, breaker cb, l, w)
  unfolding complete ask
  complete_open cb l w v h early = rw (ask_early (p.env.clock w) cb v h early)
