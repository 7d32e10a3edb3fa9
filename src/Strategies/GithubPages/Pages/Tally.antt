-- ===== src/Strategies/GithubPages/Pages/Tally.antt =====
-- internal/strategies/github_pages.go: what `processURLs` counts and reports.
use mathlib.Core.List.{Perm}
use repodocs_go.Base.{
  ◌≡◌, refl, ◌+◌, ◌≤◌, ◌==◌, ◌∙◌, [], ◌∷◌, ◌++◌, some, none, pos, length, false, true, arith, ℕ,
  Bool, List, ℤ, String, Option, if◌then◌else◌, ◌&&◌, ltb,
}
use repodocs_go.Domain.Errors.{Error, nil, is_nil}
use repodocs_go.Domain.Result.{
  Call, StrategyResult, calls, add_attempted, snapshot, new_strategy_result, completed_docs,
}
use repodocs_go.Domain.Result.Tally.{total}
use repodocs_go.Domain.Result.Diagnosed.{all_failed_said, diagnosed_by}
use repodocs_go.Utils.Parallel
use repodocs_go.Utils.Parallel.{Event, Returned, first_error, errors_of}
use repodocs_go.Strategies.Callbacks.{
  Outcome, skipped, failed, dry, written, item_calls, is_failed, is_completed, is_dry,
}
use repodocs_go.Strategies.Callbacks.Tally.{
  nil_errors, Reports, outcome-Reports, count_ends, callbacks-tally,
}
use repodocs_go.Strategies.Callbacks.Diagnosed.{
  SameCounts, outcome-silent, callbacks-silent, calls-some, diagnose-SameCounts,
}
use repodocs_go.Strategies.GithubPages.Pages.{
  Site, PageOptions, page_end, end_calls, concurrency_for, all_failed, conclude, process_urls,
}

-- The report that the browser was needed counts nothing.
end-Reports : (b : Bool) (o : Outcome) → Reports (end_calls (b, o)) o
end-Reports true skipped = omega arith
end-Reports true failed = omega arith
end-Reports true dry = omega arith
end-Reports true (written n) = omega arith
end-Reports false o = outcome-Reports o

end-silent : (b : Bool) (o : Outcome) → total diagnosed_by (end_calls (b, o)) ≡ 0
end-silent true skipped = refl
end-silent true failed = refl
end-silent true dry = refl
end-silent true (written n) = refl
end-silent false o = outcome-silent o

all_failed-completed :
    (x : Option StrategyResult) (r : StrategyResult)
    → x ≡ some r
    → (snapshot x).docs_failed ≤ (snapshot x).urls_attempted
    → all_failed (snapshot x) ≡ (completed_docs x == 0 && ltb 0 (snapshot x).docs_failed)
all_failed-completed none r e h = absurd cc
all_failed-completed (some y) r e h = ground (arith, h)

conclude-SameCounts :
    (err : Error) (x : Option StrategyResult) (r : StrategyResult)
    → is_nil err ≡ true
    → x ≡ some r
    → let (err', r') = conclude (err, x) in
      (is_nil err' ≡ true)
      × SameCounts x r'
      × (all_failed_said r' ≡ all_failed_said x + (if all_failed (snapshot x) then 1 else 0))
unfolding conclude
conclude-SameCounts err x r fine e =
    let (counts, said) =
      diagnose-SameCounts (all_failed (snapshot (some r))) "All page fetch attempts failed"
        "Verify the site is accessible and not blocking automated access" r in
    rw (e, fine) (refl, counts, said)

report_given :
    (said : ℕ) (b : Bool) (completed failures n f : ℕ)
    → said ≡ 0
    → b ≡ (completed == 0 && ltb 0 failures)
    → completed ≡ n
    → failures ≡ f
    → said + (if b then 1 else 0) ≡ (if n == 0 && ltb 0 f then 1 else 0)
report_given said b completed failures n f h e k l = ground arith

module _ (s : Site) (opts : PageOptions) where
  -- How the callback for a URL ends.
  abbrev pub outcome : String → Outcome
  outcome u = (page_end s opts u).1

  -- However the goroutines of `processURLs` interleave, once it returns with its context alive, it gives nil, and
  -- has counted on a new result each URL as attempted, and by what became of its page as failed or as
  -- completed, and none twice; it reports that all attempts failed just where no page was completed and one
  -- failed, and so also for a dry run in which the other pages did not fail.
  pub process_urls-reports :
      (strategy entry_url : String) (now : ℕ) (concurrency : ℤ) (es : List Event) (cs : List Call)
      (urls : List String)
      → let p = Parallel.run es (Parallel.start urls (concurrency_for concurrency)) in
        Returned p
        → p.cancelled ≡ false
        → Perm cs (item_calls (λ u. end_calls (page_end s opts u)) p.finished)
        → let (err, r) =
            process_urls concurrency es cs urls
              (some (new_strategy_result strategy entry_url now)) in
          (is_nil err ≡ true)
          × ((snapshot r).urls_attempted ≡ length urls)
          × ((snapshot r).docs_failed ≡ count_ends outcome is_failed urls)
          × (completed_docs r ≡ count_ends outcome is_completed urls)
          × (count_ends outcome is_failed urls
                + count_ends outcome is_completed urls
                + count_ends outcome is_dry urls
              ≡ length urls)
          × (all_failed_said r ≡ (
              if count_ends outcome is_completed urls == 0
                && ltb 0 (count_ends outcome is_failed urls)
              then 1
              else 0))
  unfolding process_urls
  process_urls-reports strategy entry_url now concurrency es cs urls returned live same =
      let p = Parallel.run es (Parallel.start urls (concurrency_for concurrency)) in
      let told = add_attempted (pos (length urls)) ∷ [] in
      let calls_of = λ (u : String). end_calls (page_end s opts u) in
      let x = calls (told ++ cs) (some (new_strategy_result strategy entry_url now)) in
      let (r, e) = calls-some (told ++ cs) (new_strategy_result strategy entry_url now) in
      let (_, attempted_, failed_, completed_, all_) =
        callbacks-tally outcome calls_of (λ u. end-Reports (page_end s opts u).0 (outcome u)) urls
          (concurrency_for concurrency) es strategy entry_url now told cs returned live same in
      let silent =
        callbacks-silent calls_of (λ u. end-silent (page_end s opts u).0 (outcome u)) strategy
          entry_url now told cs p.finished same in
      let (fine, counts, said) =
        conclude-SameCounts (first_error (errors_of (λ u. nil) p.slots)) x r (nil_errors p.slots)
          e in
      let idle = all_failed-completed x r e (omega (arith, attempted_, failed_, all_)) in
      (
        fine,
        omega (arith, counts.attempted, attempted_),
        omega (arith, counts.failed_docs, failed_),
        omega (arith, counts.completed, completed_),
        all_,
        said
            ∙ report_given (all_failed_said x) (all_failed (snapshot x)) (completed_docs x)
                (snapshot x).docs_failed (count_ends outcome is_completed urls)
                (count_ends outcome is_failed urls) silent idle (omega (arith, completed_))
                (omega (arith, failed_)),
      )
