-- ===== src/App/Run.antt =====
-- internal/app/orchestrator.go: `Run`, around the fallback. DetectStrategy, sitemap discovery, the
-- strategy factory and the steps after a success are functions that it is given, and so are those of
-- Go's package strings; log lines are left out, and with them the errors that are only logged.
mod Concludes
mod Tests
use text.Mathlib.Text.{◌==◌ as str_eq}
use repodocs_go.Domain.Errors.{Error, message, is_nil}
use repodocs_go.Domain.Result.{StrategyResult}
use repodocs_go.Recovery.Validator.{
  Verdict, ok, propagate, hard_fail, retry_alternative, Suggestion, suggestions_for,
}
use repodocs_go.Recovery.Planner.{Attempt}
use repodocs_go.App.Strategy.{is_valid_strategy}
use repodocs_go.App.Fallback.{Orchestrator, OrchestratorOptions, run_with_fallback}
use repodocs_go.Base.{not, none, some, if◌then◌else◌, List, Bool, String, Option, ℕ}

-- Functions of package strings, and a slice up to an index.
pub record Strings : Type 0 where
  pub to_lower : String → String
  pub index_any : String → String → Option ℕ
  pub slice_to : String → ℕ → String
  pub has_suffix : String → String → Bool

-- What `Run` calls, besides the fallback.
pub record Steps (W : Type 0) : Type 0 where
  pub detect : String → String
  -- `DiscoverSitemap`: the URL of a sitemap, where it found one
  pub discover : String → W → Option String × W
  -- `Fetcher.Get` with status 200 and content that `IsSitemapContent` accepts
  pub is_sitemap : String → W → Bool × W
  pub can_create : String → W → Bool
  pub flush_metadata : W → W
  pub prune_deleted : W → W
  pub save_state : W → W
  pub strings : Strings

-- What `Run` returns.
pub data RunError : Type 0 where
  no_error : RunError
  failed : Error → RunError
  -- *OutcomeError
  outcome_error : Verdict → Option StrategyResult → List Suggestion → RunError

-- `strings.HasSuffix(pathEnd, ".xml")`, with `pathEnd` cut off at a query or a fragment.
unfoldable pub is_xml : Strings → String → Bool
is_xml s url =
    let path_end = s.to_lower url in
    s.has_suffix
      (elim (s.index_any path_end "?#") [ some idx ↦ s.slice_to path_end idx | none ↦ path_end ])
      ".xml"

module _ {W : Type 0} (steps : Steps W) (o : Orchestrator W) (opts : OrchestratorOptions)
    (filter_url : String) (prune : Bool) where
  -- What follows a verdict that is VerdictOK.
  abbrev pub success_steps : W → W
  success_steps w =
      let flushed = steps.flush_metadata w in
      steps.save_state (if prune then steps.prune_deleted flushed else flushed)

  -- The `switch` on the verdict.
  abbrev pub conclude : Option StrategyResult → Verdict → W → RunError × W
  conclude result ok w = (no_error, success_steps w)
  conclude result (propagate cause) w = (failed cause, w)
  conclude result (retry_alternative reason ds) w = (
    outcome_error (retry_alternative reason ds) result
        (suggestions_for (retry_alternative reason ds) result),
    w,
  )
  conclude result (hard_fail reason cause) w = (
    outcome_error (hard_fail reason cause) result (suggestions_for (hard_fail reason cause) result),
    w,
  )

  -- From the initial attempt on.
  unfoldable pub start : String → String → W → RunError × W
  start strategy url w =
      let initial : Attempt = record {
        strategy = strategy;
        url = url;
        filter_url = filter_url;
        reason = "initial detection";
      } in
      let (result, verdict, _, w') = run_with_fallback o opts initial w in
      if not (steps.can_create strategy w)
      then (failed (message "failed to create strategy for URL"), w)
      else if not (is_nil (o.ctx_err w'))
      then (failed (o.ctx_err w'), w')
      else conclude result verdict w'

  -- The look into a URL that ends in `.xml`, after the search for a sitemap found none.
  unfoldable pub start_page : String → W → RunError × W
  unfolding start
  start_page url w =
      let (content, w') = steps.is_sitemap url w in
      if is_xml steps.strings url
      then start (if content then "sitemap" else "crawler") url w'
      else start "crawler" url w

  -- The search for a sitemap of a site that would be crawled.
  start_found : Option String → String → W → RunError × W
  unfolding start start_page
  start_found (some sitemap_url) url w = start "sitemap" sitemap_url w
  start_found none url w = start_page url w

  unfoldable pub start_crawler : String → W → RunError × W
  unfolding start_found
  start_crawler url w = let (discovery, w') = steps.discover url w in start_found discovery url w'

  unfoldable pub run : String → W → RunError × W
  unfolding start start_crawler is_valid_strategy
  run url w =
      if not (str_eq opts.strategy_override "")
      then if not (is_valid_strategy opts.strategy_override)
        then (failed (message "unknown strategy override"), w)
        else start opts.strategy_override url w
      else if str_eq (steps.detect url) "unknown"
      then (failed (message "unable to determine strategy for URL"), w)
      else if str_eq (steps.detect url) "crawler"
      then start_crawler url w
      else start (steps.detect url) url w
