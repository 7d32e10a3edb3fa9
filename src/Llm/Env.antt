-- ===== src/Llm/Env.antt =====
-- What the code of internal/llm and internal/fetcher meets outside itself: the clock, the context and
-- the timers of Go, over a world `W` that each of them may change.
use repodocs_go.Base.{ℕ, ◌+◌, ◌≤◌, ◌≡◌, true}
use repodocs_go.Domain.Errors.{Error, is_nil}

pub record Env (W : Type 0) : Type 0 where
  -- `time.Now()`, in nanoseconds
  pub clock : W → ℕ
  -- `ctx.Err()` where `ctx.Done()` is ready, and nil where it is not
  pub ctx_err : W → Error
  -- `select` on `ctx.Done()` and `time.After(d)`: nil where the timer's case is taken, else `ctx.Err()`
  pub sleep : ℕ → W → Error × W

-- A timer fires no earlier than asked.
abbrev pub Punctual : {W : Type 0} → Env W → Type 0
Punctual {W} env =
    (d : ℕ) (w : W)
    → is_nil (env.sleep d w).0 ≡ true
    → env.clock w + d ≤ env.clock (env.sleep d w).1
