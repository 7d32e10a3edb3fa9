-- ===== src/Fetcher/Retry/Hints.antt =====
-- internal/fetcher/retry.go: a Retry-After is waited for.
use repodocs_go.Base.{
  zero, inl, arith, inr, ◌*◌, none, Bool-cases, ℤ, suc, some, [], ◌≤◌, ◌∷◌, ◌+◌, Option, List, ℕ,
}
use repodocs_go.Domain.Errors.{found, is_retryable, nil, is_nil, as_retryable, Error}
use repodocs_go.Llm.Env.{Env, Punctual}
use repodocs_go.Fetcher.Retry.{
  second, retries_of, or_zero, hint, wait_after, Backoff, retry, retry_from,
}

-- A log of calls, the latest first: when each started, and what it returned.
abbrev pub Log : Type 0
Log = List (ℕ × Error)

abbrev pub timed : {W : Type 0} → Env W → Env (W × Log)
timed env = record {
  clock = λ w. env.clock w.0;
  ctx_err = λ w. env.ctx_err w.0;
  sleep = λ d w. ((env.sleep d w.0).0, ((env.sleep d w.0).1, w.1));
}

abbrev pub logging : {W : Type 0} → Env W → (W → Error × W) → (W × Log) → Error × (W × Log)
logging env operation w =
    ((operation w.0).0, ((operation w.0).1, (env.clock w.0, (operation w.0).0) ∷ w.1))

abbrev pub for_log : {W B : Type 0} → Backoff W B → Backoff (W × Log) B
for_log backoff = record {
  new_backoff = backoff.new_backoff;
  next_backoff = λ w b. backoff.next_backoff w.0 b;
}

-- The time before which no call may follow one.
abbrev pub due : ℕ × Error → ℕ
due call = call.0 + hint (as_retryable call.1) * second

-- Every call but the first started when the one before it said, or later.
abbrev pub Heeded : Log → Type 0
Heeded [] = Unit
Heeded (call ∷ []) = Unit
Heeded (call ∷ before ∷ log) = (due before ≤ call.0) × Heeded (before ∷ log)

abbrev pub EndsHeeded : {W : Type 0} → Option (Error × (W × Log)) → Type 0
EndsHeeded none = Unit
EndsHeeded (some (_, (_, log))) = Heeded log

hint-le-wait_after : (err : Error) (d : ℕ) → hint (as_retryable err) * second ≤ wait_after err d
unfolding wait_after
hint-le-wait_after err d = ground arith

abbrev DueBy : ℕ → Log → Type 0
DueBy now [] = Unit
DueBy now (call ∷ log) = due call ≤ now

extend :
    (now : ℕ) (err : Error) (log : Log) → Heeded log → DueBy now log → Heeded ((now, err) ∷ log)
extend now err [] h d = tt
extend now err (call ∷ log) h d = (d, h)

module _ {W B : Type 0} (env : Env W) (backoff : Backoff W B) (operation : W → Error × W)
    (punctual : Punctual env) (forward : (w : W) → env.clock w ≤ env.clock (operation w).1) where
  abbrev waited_for : B → W → Option ℕ × B
  waited_for b w = backoff.next_backoff (operation w).1 b

  abbrev pause : B → W → ℕ
  pause b w = wait_after (operation w).0 (or_zero (waited_for b w).0)

  retry_from-Heeded :
      (fuel : ℕ) (b : B) (last_err : Error) (w : W) (log : Log)
      → Heeded log
      → DueBy (env.clock w) log
      → EndsHeeded (
          retry_from (timed env) (for_log backoff) (logging env operation) fuel b last_err (w, log))
  unfolding retry_from
  retry_from-Heeded zero b last_err w log h d = tt
  retry_from-Heeded (suc fuel) b last_err w log h d =
      let h' = extend (env.clock w) (operation w).0 log h d in
      elim (Bool-cases (is_nil (env.ctx_err w))) [
        | inr done ↦ rw done h
        | inl live ↦ elim (Bool-cases (is_nil (operation w).0)) [
          | inl fine ↦ rw (live, fine) h'
          | inr wrong ↦ elim (Bool-cases (is_retryable (operation w).0)) [
            | inr final ↦ rw (live, wrong, final) h'
            | inl again ↦ elim (Bool-cases (found (waited_for b w).0)) [
              | inr stop ↦ rw (live, wrong, again, stop) h'
              | inl go ↦ elim (Bool-cases (is_nil (env.sleep (pause b w) (operation w).1).0)) [
                | inr interrupted ↦ rw (live, wrong, again, go, interrupted) h'
                | inl woken ↦
                    rw (live, wrong, again, go, woken)
                      (retry_from-Heeded fuel (waited_for b w).1 (operation w).0
                        (env.sleep (pause b w) (operation w).1).1
                        ((env.clock w, (operation w).0) ∷ log) h'
                        (omega (
                          arith,
                          forward w,
                          punctual (pause b w) (operation w).1 woken,
                          hint-le-wait_after (operation w).0 (or_zero (waited_for b w).0),
                        )))
              ]
            ]
          ]
        ]
      ]

  -- After a call whose error carries a Retry-After, `Retry` makes the next call no earlier than that
  -- many seconds after the start of the one before, whatever the backoff says, for a timer that does
  -- not fire early and an operation that does not turn the clock back.
  pub retry-Heeded :
      (fuel : ℕ) (max_retries : ℤ) (w : W)
      → EndsHeeded
          (retry (timed env) (for_log backoff) fuel max_retries (logging env operation) (w, []))
  unfolding retry
  retry-Heeded fuel max_retries w =
      retry_from-Heeded fuel (backoff.new_backoff (retries_of max_retries)) nil w [] tt tt
