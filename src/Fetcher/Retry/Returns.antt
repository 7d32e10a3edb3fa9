-- ===== src/Fetcher/Retry/Returns.antt =====
-- internal/fetcher/retry.go: `Retry` comes back, with what the last call of the operation returned.
use repodocs_go.Base.{
  ℤ, zero, sym, inl, refl, inr, if◌then◌else◌, [], Bool-cases, ◌∷◌, ◌<◌, ◌+◌, suc, arith, true,
  none, length, false, ◌≡◌, some, All, ◌≤◌, Option, List, ℕ,
}
use repodocs_go.Domain.Errors.{nil, is_nil, found, is_retryable, Error}
use repodocs_go.Llm.Env.{Env}
use repodocs_go.Llm.Retry.Outcome.{nil_of_is_nil, traced, recording}
use repodocs_go.Fetcher.Retry.{retries_of, or_zero, wait_after, Backoff, retry, retry_from}

-- What `backoff.WithMaxRetries` promises: each wait that is not Stop uses up one of the retries that
-- the backoff was made for.
pub record IsLimited {W B : Type 0} (backoff : Backoff W B) (left : B → ℕ) : Type 0 where
  pub made : (n : ℕ) → left (backoff.new_backoff n) ≤ n
  pub used :
      (w : W) (b : B)
      → found (backoff.next_backoff w b).0 ≡ true
      → left (backoff.next_backoff w b).1 < left b

abbrev pub beside_log : {W B : Type 0} → Backoff W B → Backoff (W × List Error) B
beside_log backoff = record {
  new_backoff = backoff.new_backoff;
  next_backoff = λ w b. backoff.next_backoff w.0 b;
}

abbrev pub Again : Error → Type 0
Again e = is_retryable e ≡ true

-- How a run ends whose calls returned the errors of the log, the latest first.
abbrev pub Last : ℕ → List Error → Error → Type 0
Last max [] r = is_nil r ≡ false
Last max (e ∷ earlier) r = All Again earlier × (length earlier ≤ max) × (r ≡ e)

abbrev pub EndsLast : {W : Type 0} → ℕ → Option (Error × (W × List Error)) → Type 0
EndsLast max none = ⊥
EndsLast max (some (r, (w, log))) = Last max log r

retryable-not_nil : (e : Error) → is_retryable e ≡ true → is_nil e ≡ false
unfolding is_retryable
retryable-not_nil e h = ground arith

abbrev Latest : List Error → Error → Type 0
Latest [] last_err = last_err ≡ nil
Latest (e ∷ earlier) last_err = last_err ≡ e

cancelled_Last :
    (max : ℕ) (log : List Error) (last_err done : Error)
    → All Again log
    → length log ≤ suc max
    → Latest log last_err
    → is_nil done ≡ false
    → Last max log (if is_nil last_err then done else last_err)
cancelled_Last max [] last_err done h n l d = rw l d
cancelled_Last max (e ∷ log) last_err done (h, hs) n l d =
    rw (l, retryable-not_nil e h) (hs, omega arith, refl)

module _ {W B : Type 0} (env : Env W) (backoff : Backoff W B) (operation : W → Error × W) where
  abbrev waited : B → W → Option ℕ × B
  waited b w = backoff.next_backoff (operation w).1 b

  abbrev slept : B → W → Error × W
  slept b w = env.sleep (wait_after (operation w).0 (or_zero (waited b w).0)) (operation w).1

  retry_from-Last :
      (left : B → ℕ) (limited : IsLimited backoff left) (max fuel : ℕ) (b : B) (last_err : Error)
      (w : W) (log : List Error)
      → All Again log
      → Latest log last_err
      → length log + left b ≤ max
      → left b < fuel
      → EndsLast max (
          retry_from
            (traced env)
            (beside_log backoff)
            (recording operation)
            fuel
            b
            last_err
            (w, log))
  unfolding retry_from
  retry_from-Last left limited max zero b last_err w log h l n enough = omega (arith, enough)
  retry_from-Last left limited max (suc fuel) b last_err w log h l n enough =
      elim (Bool-cases (is_nil (env.ctx_err w))) [
        | inr done ↦
            rw done (cancelled_Last max log last_err (env.ctx_err w) h (omega arith) l done)
        | inl live ↦ elim (Bool-cases (is_nil (operation w).0)) [
          | inl fine ↦ rw (live, fine) (h, omega arith, sym (nil_of_is_nil _ fine))
          | inr wrong ↦ elim (Bool-cases (is_retryable (operation w).0)) [
            | inr final ↦ rw (live, wrong, final) (h, omega arith, refl)
            | inl again ↦ elim (Bool-cases (found (waited b w).0)) [
              | inr stop ↦ rw (live, wrong, again, stop) (h, omega arith, refl)
              | inl go ↦ elim (Bool-cases (is_nil (slept b w).0)) [
                | inr interrupted ↦ rw (live, wrong, again, go, interrupted) (h, omega arith, refl)
                | inl woken ↦
                    let used = limited.used (operation w).1 b go in
                    rw (live, wrong, again, go, woken)
                      (retry_from-Last left limited max fuel (waited b w).1 (operation w).0
                        (slept b w).1 ((operation w).0 ∷ log) (again, h) refl
                        (omega (arith, used, n)) (omega (arith, used, enough)))
              ]
            ]
          ]
        ]
      ]

  -- With fuel for the retries that it is given, `Retry` comes back. It calls the operation at most
  -- once more than that, again only after an error that is retried, and what it returns is what the
  -- last call returned, also after a cancellation; only if it was cancelled before the first call is
  -- it another error, which is not nil. This is for a backoff that counts its retries.
  pub retry-Last :
      (left : B → ℕ) (limited : IsLimited backoff left) (max_retries : ℤ) (w : W)
      → EndsLast (retries_of max_retries) (
          retry
            (traced env)
            (beside_log backoff)
            (suc (retries_of max_retries))
            max_retries
            (recording operation)
            (w, []))
  unfolding retry
  retry-Last left limited max_retries w =
      let made = limited.made (retries_of max_retries) in
      retry_from-Last left limited (retries_of max_retries) (suc (retries_of max_retries))
        (backoff.new_backoff (retries_of max_retries)) nil w [] tt refl (omega (arith, made))
        (omega (arith, made))
