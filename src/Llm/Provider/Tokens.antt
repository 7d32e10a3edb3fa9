-- ===== src/Llm/Provider/Tokens.antt =====
-- internal/llm/provider_wrapper.go: every call of the provider is paid for with a token.
use repodocs_go.Base.{refl, none, inr, arith, inl, ◌+◌, if◌then◌else◌, Bool-cases, ◌≡◌}
use repodocs_go.Llm.Provider.{
  execute, is_nil, ℕ, Option, Error, Breaker, Parts, ask, inside, operation, complete,
}
use repodocs_go.Llm.Retry.Keeps.{execute_keeps}

abbrev one_if_nil : Error → ℕ
one_if_nil e = if is_nil e then 1 else 0

-- The same parts with two counters: the tokens that `Wait` granted, and the calls of the provider.
abbrev pub counted : {W L R : Type 0} → Parts W L R → Parts (W × ℕ) (L × ℕ) R
counted p = record {
  env = record {
    clock = λ w. p.env.clock w.0;
    ctx_err = λ w. p.env.ctx_err w.0;
    sleep = λ d w. ((p.env.sleep d w.0).0, ((p.env.sleep d w.0).1, w.1));
  };
  wait = λ l w. (
    (p.wait l.0 w.0).0,
    ((p.wait l.0 w.0).1, l.1 + one_if_nil (p.wait l.0 w.0).0),
    ((p.wait l.0 w.0).2, w.1),
  );
  provider = λ w. ((p.provider w.0).0, (p.provider w.0).1, ((p.provider w.0).2, w.1 + 1));
  backoff = p.backoff;
  max_retries = p.max_retries;
}

-- As many calls as tokens.
abbrev Balanced : {W L R : Type 0} → (Option R × (L × ℕ) × (W × ℕ)) → Type 0
Balanced s = s.1.1 ≡ s.2.1

module _ {W L R : Type 0} (p : Parts W L R) where
  operation-Balanced :
      (s : Option R × (L × ℕ) × (W × ℕ)) → Balanced s → Balanced (operation (counted p) s).1
  unfolding operation
  operation-Balanced (r, (l, n), (w, m)) h = elim (Bool-cases (is_nil (p.wait l w).0)) [
    | inl granted ↦ rw granted (omega arith)
    | inr refused ↦ rw refused (omega arith)
  ]

  -- Whatever the provider answers and whenever the context is cancelled, `Complete` has called the
  -- provider exactly as often as the limiter has granted a token: every attempt, a retry too, pays,
  -- and no token is taken for a call that is not made.
  pub calls-eq-tokens :
      (b : Breaker) (l : L) (w : W)
      → let (response, err, b', l', w') = complete (counted p) b (l, 0) (w, 0) in l'.1 ≡ w'.1
  unfolding complete
  calls-eq-tokens b l w =
      let ran =
        execute_keeps (inside (counted p)) p.backoff (operation (counted p)) Balanced
          operation-Balanced (λ d s h. h) p.max_retries (none, (l, 0), (w, 0)) refl in
      let err =
        (execute (inside (counted p)) p.backoff (operation (counted p)) p.max_retries
          (none, (l, 0), (w, 0))).0 in
      elim (Bool-cases (ask (p.env.clock w) b).1) [
        | inr rejected ↦ rw rejected refl
        | inl admitted ↦ elim (Bool-cases (is_nil err)) [
          | inl fine ↦ rw (admitted, fine) ran
          | inr wrong ↦ rw (admitted, wrong) ran
        ]
      ]
