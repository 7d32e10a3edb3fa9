-- ===== src/Llm/Retry/Outcome.antt =====
-- internal/llm/retry.go: what `Execute` returns, told from the errors of the calls that it made.
use repodocs_go.Base.{
  ℕ, zero, suc, ◌+◌, ◌≤◌, ◌≡◌, ◌⊎◌, inl, inr, refl, true, false, List, [], ◌∷◌, arith, All, length,
  ℤ, Bool-cases,
}
use repodocs_go.Domain.Errors.{Error, nil, is_nil}
use repodocs_go.Llm.Env.{Env}
use repodocs_go.Llm.Retry.{is_retryable_error, exceeded, max_retries_of, execute_from, execute}

-- The same world with a record of what each call of the operation returned, the latest first.
abbrev pub traced : {W : Type 0} → Env W → Env (W × List Error)
traced env = record {
  clock = λ w. env.clock w.0;
  ctx_err = λ w. env.ctx_err w.0;
  sleep = λ d w. ((env.sleep d w.0).0, ((env.sleep d w.0).1, w.1));
}

abbrev pub recording : {W : Type 0} → (W → Error × W) → (W × List Error) → Error × (W × List Error)
recording operation w = ((operation w.0).0, ((operation w.0).1, (operation w.0).0 ∷ w.1))

abbrev pub Retried : Error → Type 0
Retried e = is_retryable_error e ≡ true

-- The error `r` is that of a context that has ended in the world that is left, or that of the pause after
-- call number `attempt`, which left that world.
abbrev pub Cancelled : {W : Type 0} → Env W → (ℕ → ℕ) → ℕ → W → Error → Type 0
Cancelled env backoff attempt w r =
    (is_nil r ≡ false)
    × ((r ≡ env.ctx_err w)
        ⊎ ((n : ℕ) × (u : _) × (suc n ≡ attempt) × (env.sleep (backoff n) u ≡ (r, w))))

-- How a run with that record, and that bound on retries, can end in the world `w` with the error `r`.
abbrev pub Ends : {W : Type 0} → Env W → (ℕ → ℕ) → ℕ → W → List Error → Error → Type 0
Ends env backoff max w [] r = (is_nil r ≡ false) × (r ≡ env.ctx_err w)
Ends env backoff max w (e ∷ earlier) r =
    All Retried earlier
    × (length earlier ≤ max)
    × ((e ≡ nil) × (r ≡ nil)
        ⊎ ((is_nil e ≡ false) × (is_retryable_error e ≡ false) × (r ≡ e))
        ⊎ (Retried e × (r ≡ exceeded e) × (length earlier ≡ max))
        ⊎ (Retried e × Cancelled env backoff (suc (length earlier)) w r))

pub nil_of_is_nil : (e : Error) → is_nil e ≡ true → e ≡ nil
nil_of_is_nil e h = ground arith

module _ {W : Type 0} (env : Env W) (backoff : ℕ → ℕ) (operation : W → Error × W) where
  done-Ends :
      (max : ℕ) (log : List Error) (w : W)
      → All Retried log
      → length log ≤ suc max
      → is_nil (env.ctx_err w) ≡ false
      → Ends env backoff max w log (env.ctx_err w)
  done-Ends max [] w h n c = (c, refl)
  done-Ends max (e ∷ log) w (h, hs) n c = (hs, omega arith, inr (inr (inr (h, (c, inl refl)))))

  Ends-from :
      (max left attempt : ℕ) (w : W) (log : List Error)
      → All Retried log
      → length log + left ≡ max
      → length log ≡ attempt
      → Ends env backoff max
          (execute_from (traced env) backoff (recording operation) left attempt (w, log)).1.0
          (execute_from (traced env) backoff (recording operation) left attempt (w, log)).1.1
          (execute_from (traced env) backoff (recording operation) left attempt (w, log)).0
  unfolding execute_from
  Ends-from max zero attempt w log h e same = elim (Bool-cases (is_nil (env.ctx_err w))) [
    | inr done ↦ rw done (done-Ends max log w h (omega arith) done)
    | inl live ↦ elim (Bool-cases (is_nil (operation w).0)) [
      | inl fine ↦ rw (live, fine) (h, omega arith, inl (nil_of_is_nil _ fine, refl))
      | inr wrong ↦ elim (Bool-cases (is_retryable_error (operation w).0)) [
        | inl again ↦
            rw (live, wrong, again) (h, omega arith, inr (inr (inl (again, refl, omega arith))))
        | inr final ↦ rw (live, wrong, final) (h, omega arith, inr (inl (wrong, final, refl)))
      ]
    ]
  ]
  Ends-from max (suc left) attempt w log h e same = elim (Bool-cases (is_nil (env.ctx_err w))) [
    | inr done ↦ rw done (done-Ends max log w h (omega arith) done)
    | inl live ↦ elim (Bool-cases (is_nil (operation w).0)) [
      | inl fine ↦ rw (live, fine) (h, omega arith, inl (nil_of_is_nil _ fine, refl))
      | inr wrong ↦ elim (Bool-cases (is_retryable_error (operation w).0)) [
        | inr final ↦ rw (live, wrong, final) (h, omega arith, inr (inl (wrong, final, refl)))
        | inl again ↦ elim (Bool-cases (is_nil (env.sleep (backoff attempt) (operation w).1).0)) [
          | inr interrupted ↦
              rw (live, wrong, again, interrupted)
                (
                  h,
                  omega arith,
                  inr (
                      inr (
                        inr (
                          again,
                          (interrupted, inr (attempt, (operation w).1, omega arith, refl)),
                        ))),
                )
          | inl woken ↦
              rw (live, wrong, again, woken)
                (Ends-from max left (attempt + 1) (env.sleep (backoff attempt) (operation w).1).1
                  ((operation w).0 ∷ log) (again, h) (omega arith) (omega arith))
        ]
      ]
    ]
  ]

  -- `Execute` calls the operation at most `max_retries + 1` times, again only after an error that is
  -- retried, and returns: nil with a last call that returned nil; the last call's error as it is, if
  -- that is not retried; ErrLLMMaxRetriesExceeded when `max_retries + 1` calls failed with errors that are
  -- retried; or else an error that is not nil and is that of the context in the world that is left, or of
  -- the pause after the last call.
  pub execute-Ends :
      (max_retries : ℤ) (w : W)
      → Ends env backoff
          (max_retries_of max_retries)
          (execute (traced env) backoff (recording operation) max_retries (w, [])).1.0
          (execute (traced env) backoff (recording operation) max_retries (w, [])).1.1
          (execute (traced env) backoff (recording operation) max_retries (w, [])).0
  unfolding execute
  execute-Ends max_retries w =
      Ends-from (max_retries_of max_retries) (max_retries_of max_retries) 0 w [] tt (omega arith)
        refl
