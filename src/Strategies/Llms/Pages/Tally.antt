-- ===== src/Strategies/Llms/Pages/Tally.antt =====
-- internal/strategies/llms.go: what a run over the links of an llms.txt counts and reports.
use mathlib.Core.List.{Perm}
use repodocs_go.Base.{
  ◌∙◌, none, Option, ◌++◌, ◌≡◌, refl, ◌+◌, ◌<◌, ◌==◌, [], ◌∷◌, some, pos, negsuc, zero, suc, length,
  false, true, arith, ℕ, Bool, List, ℤ, String, if◌then◌else◌, ◌&&◌, ltb, Bool-cases, inl, inr,
}
use repodocs_go.Domain.Errors.{Error, nil, is_nil}
use repodocs_go.Domain.Result.{
  Call, StrategyResult, calls, add_discovered, add_attempted, snapshot, new_strategy_result,
  completed_docs,
}
use repodocs_go.Domain.Result.Diagnosed.{all_failed_said}
use repodocs_go.Utils.Parallel
use repodocs_go.Utils.Parallel.{errors_of, first_error, Event, Returned}
use repodocs_go.Strategies.Callbacks.{outcome_calls, item_calls, is_failed, is_completed}
use repodocs_go.Strategies.Callbacks.Tally.{
  nil_errors, outcome-Reports, count_ends, callbacks-tally,
}
use repodocs_go.Strategies.Callbacks.Diagnosed.{
  SameCounts, outcome-silent, callbacks-silent, calls-some, diagnose-SameCounts,
}
use repodocs_go.Strategies.Llms.{LlmsLink, limit_links}
use repodocs_go.Strategies.Llms.Pages.{
  Llms, LlmsOptions, link_outcome, process_links, conclude, nothing_done, execute_links,
}

limit_links-some :
    (limit : ℤ) (l : LlmsLink) (links : List LlmsLink) → 0 < length (limit_links limit (l ∷ links))
limit_links-some (negsuc n) l links = omega arith
limit_links-some (pos zero) l links = omega arith
limit_links-some (pos (suc n)) l links =
    elim (Bool-cases (ltb 0 (suc n) && ltb (suc n) (length (l ∷ links)))) [
      | inl cut ↦ rw cut (omega arith)
      | inr whole ↦ rw whole (omega arith)
    ]

nothing_done-completed :
    (x : Option StrategyResult) (r : StrategyResult)
    → x ≡ some r
    → 0 < (snapshot x).urls_attempted
    → nothing_done (snapshot x) ≡ (completed_docs x == 0)
nothing_done-completed none r e h = absurd (omega (arith, h))
nothing_done-completed (some y) r e h = ground (arith, h)

report_given :
    (said : ℕ) (b : Bool) (completed n : ℕ)
    → said ≡ 0
    → b ≡ (completed == 0)
    → completed ≡ n
    → said + (if b then 1 else 0) ≡ (if n == 0 then 1 else 0)
report_given said b completed n h e f = ground arith

conclude-SameCounts :
    (err : Error) (x : Option StrategyResult) (r : StrategyResult)
    → is_nil err ≡ true
    → x ≡ some r
    → let (err', r') = conclude (err, x) in
      (is_nil err' ≡ true)
      × SameCounts x r'
      × (all_failed_said r' ≡ all_failed_said x + (if nothing_done (snapshot x) then 1 else 0))
unfolding conclude
conclude-SameCounts err x r fine e =
    let (counts, said) =
      diagnose-SameCounts (nothing_done (snapshot (some r)))
        "All link fetch/convert attempts failed"
        "Verify the linked pages are accessible and in supported formats" r in
    rw (e, fine) (refl, counts, said)

module _ (s : Llms) (opts : LlmsOptions) (strategy entry_url : String) (now : ℕ) (es : List Event)
    (cs : List Call) (l : LlmsLink) (ls : List LlmsLink) where
  abbrev links : List LlmsLink
  links = limit_links opts.limit (l ∷ ls)

  abbrev told : List Call
  told = add_discovered (pos (length links)) ∷ add_attempted (pos (length links)) ∷ []

  -- However the goroutines interleave, a run over the links of an llms.txt that returns with its context
  -- alive gives nil, and has counted each link within the limit as discovered and attempted, and by what became of it, as failed or
  -- as completed; it reports that all attempts failed just where none was completed, and so also for a dry run in
  -- which no link failed.
  pub execute_links-tally :
      let p = Parallel.run es (Parallel.start links opts.concurrency) in
      Returned p
      → p.cancelled ≡ false
      → Perm cs (item_calls (λ k. outcome_calls (link_outcome s opts k)) p.finished)
      → let (err, r) =
          execute_links s opts es cs (l ∷ ls) (some (new_strategy_result strategy entry_url now)) in
        (is_nil err ≡ true)
        × ((snapshot r).urls_discovered ≡ length links)
        × ((snapshot r).urls_attempted ≡ length links)
        × ((snapshot r).docs_failed ≡ count_ends (link_outcome s opts) is_failed links)
        × (completed_docs r ≡ count_ends (link_outcome s opts) is_completed links)
        × (all_failed_said r
            ≡ (if count_ends (link_outcome s opts) is_completed links == 0 then 1 else 0))
  unfolding execute_links process_links conclude
  execute_links-tally returned live same =
      let p = Parallel.run es (Parallel.start links opts.concurrency) in
      let calls_of = λ (k : LlmsLink). outcome_calls (link_outcome s opts k) in
      let x = calls (told ++ cs) (some (new_strategy_result strategy entry_url now)) in
      let (r, e) = calls-some (told ++ cs) (new_strategy_result strategy entry_url now) in
      let (discovered_, attempted_, failed_, completed_, all_) =
        callbacks-tally (link_outcome s opts) calls_of
          (λ k. outcome-Reports (link_outcome s opts k)) links opts.concurrency es strategy
          entry_url now told cs returned live same in
      let silent =
        callbacks-silent calls_of (λ k. outcome-silent (link_outcome s opts k)) strategy entry_url
          now told cs p.finished same in
      let (fine, counts, said) =
        conclude-SameCounts (first_error (errors_of (λ k. nil) p.slots)) x r (nil_errors p.slots)
          e in
      let some_attempt : 0 < (snapshot x).urls_attempted =
        omega (arith, attempted_, limit_links-some opts.limit l ls) in
      let idle = nothing_done-completed x r e some_attempt in
      (
        fine,
        omega (arith, counts.discovered, discovered_),
        omega (arith, counts.attempted, attempted_),
        omega (arith, counts.failed_docs, failed_),
        omega (arith, counts.completed, completed_),
        said
            ∙ report_given (all_failed_said x) (nothing_done (snapshot x)) (completed_docs x)
                (count_ends (link_outcome s opts) is_completed links) silent idle
                (omega (arith, completed_)),
      )
