-- ===== src/Recovery/Validator/Verdicts.antt =====
-- internal/recovery/validator.go: when an outcome is accepted, and what a verdict says of the counters.
use repodocs_go.Domain.Errors.Retryable.{wrap_all-transient, wrap_all-not_nil, wrap_all, Layer}
use repodocs_go.Domain.Errors.{is_transient, is_retryable, is_nil, Error}
use repodocs_go.Domain.Result.{finish, snapshot, StrategyResult, Diagnostic, call, Snapshot}
use repodocs_go.Base.{
  sym, inr, ap, ◌∙◌, inl, if◌then◌else◌, Bool-cases, ◌≢◌, refl, none, false, some, ◌<◌, Option, ℕ,
  List, true, ◌⊎◌, arith, ◌↔◌, ◌+◌, ◌≤◌, ◌≡◌, Bool,
}
use repodocs_go.Recovery.Validator.{
  strategy_execution_failed, ok, retry_alternative, hard_fail, propagate, RetryReason,
  high_failure_ratio, Criteria, ValidationOptions, judge, validate, criteria_for,
}

-- What an outcome has to be for acceptance: enough documents, or in a dry run enough URLs with no
-- failure.
abbrev pub Accepted : Criteria → Bool → Snapshot → Type 0
Accepted c dry_run s =
    (c.min_docs_written ≤ s.docs_written + s.docs_skipped)
    ⊎ ((dry_run ≡ true) × (c.min_docs_written ≤ s.urls_attempted) × (s.docs_failed ≡ 0))

judge-ok_iff :
    (c : Criteria) (opts : ValidationOptions) (s : Snapshot)
    → (judge c opts s ≡ ok) ↔ Accepted c opts.dry_run s
unfolding judge
judge-ok_iff c opts s = ground arith

finish_counts :
    (now : ℕ) (r : StrategyResult)
    → let s = snapshot (call (finish now) (some r)) in
      (s.docs_written ≡ r.now_at.docs_written)
      × (s.docs_skipped ≡ r.now_at.docs_skipped)
      × (s.docs_failed ≡ r.now_at.docs_failed)
      × (s.urls_attempted ≡ r.now_at.urls_attempted)
      × (s.urls_discovered ≡ r.now_at.urls_discovered)
unfolding call
finish_counts now r = (refl, refl, refl, refl, refl)

-- Where there is no error, the verdict is what the tests say of the snapshot.
judged :
    (v : Criteria) (now : ℕ) (r : StrategyResult) (err : Error) (opts : ValidationOptions)
    → is_nil err ≡ true
    → (validate v now (some r) err opts).0
      ≡ judge (criteria_for v opts) opts (snapshot (call (finish now) (some r)))
unfolding validate
judged v now r err opts fine = rw fine refl

-- Where there is one, the verdict is one of two.
failed_verdict :
    (v : Criteria) (now : ℕ) (r : Option StrategyResult) (err : Error) (opts : ValidationOptions)
    → is_nil err ≡ false
    → (validate v now r err opts).0
      ≡ (if is_transient err then propagate err else hard_fail strategy_execution_failed err)
unfolding validate
failed_verdict v now none err opts wrong = elim (Bool-cases (is_transient err)) [
  | inl t ↦ rw (wrong, t) refl
  | inr t ↦ rw (wrong, t) refl
]
failed_verdict v now (some r) err opts wrong = elim (Bool-cases (is_transient err)) [
  | inl t ↦ rw (wrong, t) refl
  | inr t ↦ rw (wrong, t) refl
]

failed-ne-ok :
    (v : Criteria) (now : ℕ) (r : Option StrategyResult) (err : Error) (opts : ValidationOptions)
    → is_nil err ≡ false
    → (validate v now r err opts).0 ≢ ok
failed-ne-ok v now r err opts wrong =
    rw (failed_verdict v now r err opts wrong)
      (elim (Bool-cases (is_transient err)) [ inl t ↦ rw t (λ h. cc) | inr t ↦ rw t (λ h. cc) ])

no_telemetry :
    (v : Criteria) (now : ℕ) (err : Error) (opts : ValidationOptions)
    → is_nil err ≡ true
    → (validate v now none err opts).0 ≢ ok
unfolding validate
no_telemetry v now err opts fine = rw fine (λ h. cc)

none-ne-ok :
    (v : Criteria) (now : ℕ) (err : Error) (opts : ValidationOptions)
    → (validate v now none err opts).0 ≢ ok
none-ne-ok v now err opts = elim (Bool-cases (is_nil err)) [
  | inl fine ↦ no_telemetry v now err opts fine
  | inr wrong ↦ failed-ne-ok v now none err opts wrong
]

-- An outcome is accepted exactly when the strategy returned no error and a result that counts
-- `min_docs_written` documents written or skipped, or, in a dry run, that attempted as many URLs and
-- failed at none. The success ratio has no part in it: one document out of any number is enough for
-- the default minimum. Without a result nothing is accepted.
pub validate-ok_iff :
    (v : Criteria) (now : ℕ) (r : StrategyResult) (err : Error) (opts : ValidationOptions)
    → (((validate v now (some r) err opts).0 ≡ ok)
        ↔ ((is_nil err ≡ true) × Accepted (criteria_for v opts) opts.dry_run r.now_at))
      × ((validate v now none err opts).0 ≢ ok)
validate-ok_iff v now r err opts =
    let s = snapshot (call (finish now) (some r)) in
    let (w, k, f, a, _) = finish_counts now r in
    let (to, from) = judge-ok_iff (criteria_for v opts) opts s in
    (
      elim (Bool-cases (is_nil err)) [
        | inl fine ↦
            rw (judged v now r err opts fine, fine)
              (
                (λ h. (refl, ground (arith, to h, w, k, f, a))),
                (λ h. from (ground (arith, h.1, w, k, f, a))),
              )
        | inr wrong ↦ (λ h. absurd (failed-ne-ok v now (some r) err opts wrong h), λ h. cc (h.0))
      ],
      none-ne-ok v now err opts,
    )

-- A transient error of the fetch layer is propagated as it is, whatever result comes with it, and
-- through any layers of context that it was wrapped in.
pub transient_propagates :
    (v : Criteria) (now : ℕ) (r : Option StrategyResult) (ls : List Layer) (e : Error)
    (opts : ValidationOptions)
    → is_nil e ≡ false
    → is_retryable e ≡ true
    → (validate v now r (wrap_all ls e) opts).0 ≡ propagate (wrap_all ls e)
transient_propagates v now r ls e opts there retried =
    failed_verdict v now r (wrap_all ls e) opts (wrap_all-not_nil ls e there)
    ∙ ap
        (λ b.
          if b
          then propagate (wrap_all ls e)
          else hard_fail strategy_execution_failed (wrap_all ls e))
        (wrap_all-transient ls e there retried)

judge_retry :
    (c : Criteria) (opts : ValidationOptions) (s : Snapshot) (reason : RetryReason)
    (ds : List Diagnostic)
    → judge c opts s ≡ retry_alternative reason ds
    → (s.docs_written + s.docs_skipped < c.min_docs_written)
      × ((s.urls_attempted ≡ 0)
          ⊎ (reason
              ≡ high_failure_ratio (record {
                numerator = s.docs_written + s.docs_skipped;
                denominator = s.urls_attempted;
              })))
unfolding judge
judge_retry c opts s reason ds h = ground arith

finished_few :
    (v : Criteria) (now : ℕ) (r : StrategyResult) (opts : ValidationOptions)
    → let s = snapshot (call (finish now) (some r)) in
      s.docs_written + s.docs_skipped < (criteria_for v opts).min_docs_written
      → r.now_at.docs_written + r.now_at.docs_skipped < (criteria_for v opts).min_docs_written
unfolding call
finished_few v now r opts h = h

finished_why :
    (now : ℕ) (r : StrategyResult) (reason : RetryReason)
    → let s = snapshot (call (finish now) (some r)) in
      (s.urls_attempted ≡ 0)
        ⊎ (reason
            ≡ high_failure_ratio (record {
              numerator = s.docs_written + s.docs_skipped;
              denominator = s.urls_attempted;
            }))
      → (r.now_at.urls_attempted ≡ 0)
        ⊎ (reason
            ≡ high_failure_ratio (record {
              numerator = r.now_at.docs_written + r.now_at.docs_skipped;
              denominator = r.now_at.urls_attempted;
            }))
unfolding call
finished_why now r reason h = h

-- What the verdict to try something else says of the strategy's run: it returned no error, it counts
-- fewer documents than asked for, and either it attempted no URL or the reason is the failure ratio.
pub retry_verdict :
    (v : Criteria) (now : ℕ) (r : StrategyResult) (err : Error) (opts : ValidationOptions)
    (reason : RetryReason) (ds : List Diagnostic)
    → (validate v now (some r) err opts).0 ≡ retry_alternative reason ds
    → (is_nil err ≡ true)
      × (r.now_at.docs_written + r.now_at.docs_skipped < (criteria_for v opts).min_docs_written)
      × ((r.now_at.urls_attempted ≡ 0)
          ⊎ (reason
              ≡ high_failure_ratio (record {
                numerator = r.now_at.docs_written + r.now_at.docs_skipped;
                denominator = r.now_at.urls_attempted;
              })))
retry_verdict v now r err opts reason ds h = elim (Bool-cases (is_nil err)) [
  | inr wrong ↦ elim (Bool-cases (is_transient err)) [
    | inl t ↦ cc (failed_verdict v now (some r) err opts wrong, t)
    | inr t ↦ cc (failed_verdict v now (some r) err opts wrong, t)
  ]
  | inl fine ↦
      let (few, why) =
        judge_retry (criteria_for v opts) opts (snapshot (call (finish now) (some r))) reason ds
          (sym (judged v now r err opts fine) ∙ h) in
      (fine, finished_few v now r opts few, finished_why now r reason why)
]
