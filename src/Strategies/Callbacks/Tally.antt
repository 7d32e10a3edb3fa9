-- ===== src/Strategies/Callbacks/Tally.antt =====
-- internal/strategies: the counters of a run whose pages are processed in parallel.
use mathlib.Core.List.{Perm}
use mathlib.Core.List.Perm
use repodocs_go.Base.{
  sym, ◌≡◌, refl, ap, ◌∙◌, ◌+◌, ◌++◌, [], ◌∷◌, some, length, true, false, arith, if◌then◌else◌, ℕ,
  Bool, List, ℤ, String,
}
use repodocs_go.Domain.Errors.{nil, is_nil}
use repodocs_go.Domain.Result.{Call, calls, snapshot, new_strategy_result, completed_docs}
use repodocs_go.Domain.Result.Tally.{
  written_by, skipped_by, failed_by, discovered_by, attempted_by, total, calls_any_order,
}
use repodocs_go.Utils.Parallel
use repodocs_go.Utils.Parallel.{
  Pool, Slot, waiting, queued, running, done, Event, Returned, errors_of, first_error,
}
use repodocs_go.Utils.Parallel.Invariant.{start-run-IsValid}
use repodocs_go.Utils.Parallel.Refines.{returned-done}
use repodocs_go.Utils.Parallel.Finished.{count_items, start-run-Tallies, done-items}
use repodocs_go.Strategies.Callbacks.{
  Outcome, skipped, failed, dry, written, outcome_calls, item_calls, is_failed, is_completed,
  is_dry,
}

-- Where every callback returns nil, so does `FirstError`.
pub nil_errors :
    {T : Type 0} (ss : List (Slot T)) → is_nil (first_error (errors_of (λ t. nil) ss)) ≡ true
nil_errors [] = refl
nil_errors (waiting t ∷ ss) = nil_errors ss
nil_errors (queued t ∷ ss) = nil_errors ss
nil_errors (running t ∷ ss) = nil_errors ss
nil_errors (done t ∷ ss) = nil_errors ss

pub total-append : (f : Call → ℕ) (cs ds : List Call) → total f (cs ++ ds) ≡ total f cs + total f ds
total-append f [] ds = omega arith
total-append f (c ∷ cs) ds = omega (arith, total-append f cs ds)

-- What a row of calls adds to the failed and to the completed documents; it reports no URLs.
pub record Tells (cs : List Call) (f c : ℕ) : Type 0 where
  pub failures : total failed_by cs ≡ f
  pub completions : total written_by cs + total skipped_by cs ≡ c
  pub no_attempt : total attempted_by cs ≡ 0
  pub no_discovery : total discovered_by cs ≡ 0

-- The calls tell how the callback ended, by one counter at most.
abbrev pub Reports : List Call → Outcome → Type 0
Reports cs o = Tells cs (if is_failed o then 1 else 0) (if is_completed o then 1 else 0)

pub outcome-Reports : (o : Outcome) → Reports (outcome_calls o) o
outcome-Reports skipped = omega arith
outcome-Reports failed = omega arith
outcome-Reports dry = omega arith
outcome-Reports (written n) = omega arith

pub append-Tells :
    (cs ds : List Call) {f c f' c' : ℕ}
    → Tells cs f c
    → Tells ds f' c'
    → Tells (cs ++ ds) (f + f') (c + c')
append-Tells cs ds s t = record {
  failures = omega (arith, s.failures, t.failures, total-append failed_by cs ds);
  completions = omega (
    arith,
    s.completions,
    t.completions,
    total-append written_by cs ds,
    total-append skipped_by cs ds,
  );
  no_attempt = omega (arith, s.no_attempt, t.no_attempt, total-append attempted_by cs ds);
  no_discovery = omega (arith, s.no_discovery, t.no_discovery, total-append discovered_by cs ds);
}

outcome_one :
    (o : Outcome)
    → (if is_failed o then 1 else 0)
        + (if is_completed o then 1 else 0)
        + (if is_dry o then 1 else 0)
      ≡ 1
outcome_one skipped = refl
outcome_one failed = refl
outcome_one dry = refl
outcome_one (written n) = refl

-- Of the calls that returned, as many as of all the items, once all are done.
pub finished_items :
    {T : Type 0} (items : List T) (concurrency : ℤ) (es : List Event) (q : T → Bool)
    → let p = Parallel.run es (Parallel.start items concurrency) in
      Returned p → p.cancelled ≡ false → count_items q p.finished ≡ count_items q items
finished_items items concurrency es q r live =
    let p = Parallel.run es (Parallel.start items concurrency) in
    let v = start-run-IsValid items concurrency es in
    let (none_waiting, none_queued, none_running) = returned-done items concurrency p v r live in
    sym (start-run-Tallies q items concurrency es)
    ∙ done-items q p.slots none_waiting none_queued none_running
    ∙ ap (count_items q) v.same_items

module _ {T : Type 0} (outcome : T → Outcome) where
  -- How many of the items a way of ending has.
  abbrev pub count_ends : (Outcome → Bool) → List T → ℕ
  count_ends q = count_items (λ t. q (outcome t))

  all_outcomes :
      (ts : List T)
      → count_ends is_failed ts + count_ends is_completed ts + count_ends is_dry ts ≡ length ts
  unfolding count_items
  all_outcomes [] = refl
  all_outcomes (t ∷ ts) = omega (arith, all_outcomes ts, outcome_one (outcome t))

  module _ (calls_of : T → List Call) (reports : (t : T) → Reports (calls_of t) (outcome t)) where
    item_calls-Tells :
        (ts : List T)
        → Tells (item_calls calls_of ts) (count_ends is_failed ts) (count_ends is_completed ts)
    unfolding count_items
    item_calls-Tells [] = omega arith
    item_calls-Tells (t ∷ ts) =
        append-Tells (calls_of t) (item_calls calls_of ts) (reports t) (item_calls-Tells ts)

    module _ (items : List T) (concurrency : ℤ) (es : List Event) where
      abbrev pool : Pool T
      pool = Parallel.run es (Parallel.start items concurrency)

      -- After the calls `before` on a new result, the callbacks of a run that returns with its context
      -- alive, however they interleave, add each item to the counters by what became of it.
      pub callbacks-tally :
          (strategy entry_url : String) (now : ℕ) (before cs : List Call)
          → Returned pool
          → pool.cancelled ≡ false
          → Perm cs (item_calls calls_of pool.finished)
          → let r = calls (before ++ cs) (some (new_strategy_result strategy entry_url now)) in
            ((snapshot r).urls_discovered ≡ total discovered_by before)
            × ((snapshot r).urls_attempted ≡ total attempted_by before)
            × ((snapshot r).docs_failed ≡ total failed_by before + count_ends is_failed items)
            × (completed_docs r
                ≡ total written_by before + total skipped_by before + count_ends is_completed items)
            × (count_ends is_failed items + count_ends is_completed items + count_ends is_dry items
                ≡ length items)
      callbacks-tally strategy entry_url now before cs returned live same =
          let told = item_calls-Tells pool.finished in
          let ds = item_calls calls_of pool.finished in
          let (completed_, failed_, discovered_, attempted_) =
            calls_any_order strategy entry_url now (before ++ cs) (before ++ ds)
              (Perm.append_left before same) in
          let all_failed =
            finished_items items concurrency es (λ t. is_failed (outcome t)) returned live in
          let all_completed =
            finished_items items concurrency es (λ t. is_completed (outcome t)) returned live in
          (
            omega (arith, discovered_, told.no_discovery, total-append discovered_by before ds),
            omega (arith, attempted_, told.no_attempt, total-append attempted_by before ds),
            omega (arith, failed_, told.failures, all_failed, total-append failed_by before ds),
            omega (
              arith,
              completed_,
              told.completions,
              all_completed,
              total-append written_by before ds,
              total-append skipped_by before ds,
            ),
            all_outcomes items,
          )
