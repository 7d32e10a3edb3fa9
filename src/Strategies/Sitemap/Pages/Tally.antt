-- ===== src/Strategies/Sitemap/Pages/Tally.antt =====
-- internal/strategies/sitemap.go: what `processURLs` counts.
use mathlib.Core.List.{Perm}
use repodocs_go.Base.{
  ◌≡◌, ◌+◌, [], ◌∷◌, some, pos, length, false, arith, ℕ, Bool, List, ℤ, String, true,
}
use repodocs_go.Domain.Errors.{is_nil}
use repodocs_go.Domain.Result.{Call, add_attempted, snapshot, new_strategy_result, completed_docs}
use repodocs_go.Utils.Parallel
use repodocs_go.Utils.Parallel.{Event, Returned}
use repodocs_go.Utils.Parallel.Finished.{count_items}
use repodocs_go.Strategies.Callbacks.{Outcome, outcome_calls, is_failed, is_completed, is_dry}
use repodocs_go.Strategies.Callbacks.Tally.{nil_errors, outcome-Reports, callbacks-tally}
use repodocs_go.Strategies.Sitemap.Plain.{SitemapUrl}
use repodocs_go.Strategies.Sitemap.Pages.{
  Pages, PageOptions, page_outcome, page_calls, process_urls,
}

-- Whether the callback for a URL ends in a way.
unfoldable pub ends : (Outcome → Bool) → Pages → PageOptions → SitemapUrl → Bool
unfolding page_outcome
ends q pages opts u = q (page_outcome pages opts u)

-- However the goroutines of `processURLs` interleave, once it returns with its context alive, it gives
-- nil, and has counted on a new result each URL once as attempted, and each callback as what became
-- of its page: the failed ones as failed, those that were there or were written as completed, and of
-- the URLs no others are left than those whose document a dry run did not write.
pub process_urls-tally :
    (pages : Pages) (opts : PageOptions) (strategy entry_url : String) (now : ℕ) (concurrency : ℤ)
    (urls : List SitemapUrl) (es : List Event) (cs : List Call)
    → let p = Parallel.run es (Parallel.start urls concurrency) in
      Returned p
      → p.cancelled ≡ false
      → Perm cs (page_calls pages opts p.finished)
      → let (err, r) =
          process_urls concurrency es cs urls (some (new_strategy_result strategy entry_url now)) in
        (is_nil err ≡ true)
        × ((snapshot r).urls_attempted ≡ length urls)
        × ((snapshot r).docs_failed ≡ count_items (ends is_failed pages opts) urls)
        × (completed_docs r ≡ count_items (ends is_completed pages opts) urls)
        × ((snapshot r).docs_failed + completed_docs r + count_items (ends is_dry pages opts) urls
            ≡ length urls)
unfolding process_urls page_calls ends
process_urls-tally pages opts strategy entry_url now concurrency urls es cs returned live same =
    let p = Parallel.run es (Parallel.start urls concurrency) in
    let attempt = add_attempted (pos (length urls)) in
    let (_, attempted_, failed_, completed_, all_) =
      callbacks-tally (page_outcome pages opts) (λ u. outcome_calls (page_outcome pages opts u))
        (λ u. outcome-Reports (page_outcome pages opts u)) urls concurrency es strategy entry_url
        now (attempt ∷ []) cs returned live same in
    (
      nil_errors p.slots,
      omega (arith, attempted_),
      omega (arith, failed_),
      omega (arith, completed_),
      omega (arith, failed_, completed_, all_),
    )
