-- ===== src/Llm/Breaker/Trip.antt =====
-- internal/llm/circuit_breaker.go: when a closed breaker opens, and how long it stays open.
use Prim.Native.Nat.{max}
use repodocs_go.Base.{
  ap, sym, subst, ℕ, ◌+◌, ◌<◌, ◌≡◌, refl, Bool, true, false, List, [], ◌∷◌, arith, All,
}
use repodocs_go.Llm.Breaker.{
  open_, CircuitBreaker, allow, record_success, record_failure, Call, ask, succeeded, failed, run,
}
use repodocs_go.Llm.Breaker.Invariant.{IsValid, step-IsValid}

-- The outcomes of requests as calls, all made at one time: `true` is a success.
abbrev pub report : ℕ → Bool → Call
report now true = succeeded now
report now false = failed now

abbrev pub reports : ℕ → List Bool → List Call
reports now [] = []
reports now (o ∷ os) = report now o ∷ reports now os

-- The longest unbroken row of failures in a history, where `n` failures came just before it.
abbrev pub longest : ℕ → List Bool → ℕ
longest n [] = n
longest n (true ∷ os) = max n (longest 0 os)
longest n (false ∷ os) = longest (n + 1) os

abbrev pub Early : ℕ → Call → Type 0
Early limit (ask now) = now < limit
Early limit (succeeded now) = Unit {0}
Early limit (failed now) = Unit {0}

-- The answers to the requests for admission in a row of calls.
abbrev pub answers : List Call → CircuitBreaker → List Bool
answers [] cb = []
answers (ask now ∷ cs) cb = (allow now cb).1 ∷ answers cs (allow now cb).0
answers (succeeded now ∷ cs) cb = answers cs (record_success now cb)
answers (failed now ∷ cs) cb = answers cs (record_failure now cb)

pub ask_early :
    (now : ℕ) (cb : CircuitBreaker)
    → IsValid cb
    → cb.state ≡ open_
    → now < cb.last_state_change + cb.config.reset_timeout
    → allow now cb ≡ (cb, false)
unfolding allow
ask_early now cb v h early = ground arith

record IsShut (limit : ℕ) (cb : CircuitBreaker) : Type 0 where
  valid : IsValid cb
  state : cb.state ≡ open_
  until : cb.last_state_change + cb.config.reset_timeout ≡ limit

success-IsShut :
    (now limit : ℕ) (cb : CircuitBreaker) → IsShut limit cb → IsShut limit (record_success now cb)
unfolding record_success
success-IsShut now limit cb h = record {
  valid = step-IsValid (succeeded now) cb h.valid;
  state = ground (arith, h.state);
  until = ground (arith, h.state, h.until);
}

failure-IsShut :
    (now limit : ℕ) (cb : CircuitBreaker) → IsShut limit cb → IsShut limit (record_failure now cb)
unfolding record_failure
failure-IsShut now limit cb h = record {
  valid = step-IsValid (failed now) cb h.valid;
  state = ground (arith, h.state);
  until = ground (arith, h.state, h.until);
}

stays_shut :
    (limit : ℕ) (cs : List Call) (cb : CircuitBreaker)
    → IsShut limit cb
    → All (Early limit) cs
    → All (λ b. b ≡ false) (answers cs cb) × ((run cs cb).state ≡ open_)
stays_shut limit [] cb h e = (tt, h.state)
stays_shut limit (ask now ∷ cs) cb h (early, e) =
    let (no_answer, still) = stays_shut limit cs cb h e in
    let refused : allow now cb ≡ (cb, false) =
      ask_early now cb h.valid h.state (omega (arith, h.until)) in
    (
      (
        ap (λ r. r.1) refused,
        subst (λ r. All (λ b. b ≡ false) (answers cs r.0)) (sym refused) no_answer,
      ),
      subst (λ r. (run cs r.0).state ≡ open_) (sym refused) still,
    )
stays_shut limit (succeeded now ∷ cs) cb h (_, e) =
    stays_shut limit cs (record_success now cb) (success-IsShut now limit cb h) e
stays_shut limit (failed now ∷ cs) cb h (_, e) =
    stays_shut limit cs (record_failure now cb) (failure-IsShut now limit cb h) e

-- Until the reset timeout is over an open breaker admits nothing and stays open, whatever outcomes of
-- requests that were admitted before come in meanwhile.
pub rejects_until_reset :
    (cs : List Call) (cb : CircuitBreaker)
    → IsValid cb
    → cb.state ≡ open_
    → All (Early (cb.last_state_change + cb.config.reset_timeout)) cs
    → All (λ b. b ≡ false) (answers cs cb) × ((run cs cb).state ≡ open_)
rejects_until_reset cs cb v h e =
    stays_shut _ cs cb (record { valid = v; state = h; until = refl }) e
