-- ===== src/Strategies/Crawler.antt =====
-- internal/strategies/crawler.go: the callbacks that colly runs, as steps of a machine in any order, and
-- `execute` around them. What colly does between them is any sequence of steps: a link that it hands to
-- the crawler, a response, or a failed request. The reading of the limit and the entry into `visited` are two steps; what
-- follows the limit gate for a response is one, since responses share only the result and the record of pages.
pub mod Page
pub mod Counts
pub mod Tally
pub mod Unseen
mod Tests
use package.text.Mathlib.Text.{◌==◌ as str_eq}
use repodocs_go.Base.{
  Bool, true, false, not, ◌&&◌, ◌||◌, ◌==◌, leb, ltb, ◌+◌, ◌-◌, String, List, [], ◌∷◌, ◌++◌, Option,
  none, some, ℕ, zero, suc, ◌⊎◌, inl, inr, ℤ, pos, negsuc, length, contains, lower_contains,
  if◌then◌else◌,
}
use repodocs_go.Domain.Errors.{Error, nil, is_nil}
use repodocs_go.Domain.Result.{
  Call, StrategyResult, Snapshot, call, calls, snapshot, inc_discovered, inc_attempted, inc_failed,
  add_diagnostic, all_fetches_failed, no_documents,
}
use repodocs_go.State.{Manager, mark_seen, should_process, update}
use repodocs_go.Utils.Url.{Url, is_same_domain, has_base_url}
use repodocs_go.Converter.ContentType.{is_markdown_content}
use repodocs_go.Strategies.Callbacks.{Outcome, skipped, failed, dry, written, outcome_calls}
use repodocs_go.Strategies.Crawler.Page.{
  Response, Site, Options, is_wanted, is_page, finish_response,
}

-- `crawlContext`, with the state manager of the dependencies. `told` are the calls on the result so far.
pub record Crawl : Type 0 where
  pub visited : List String
  pub processed : ℕ
  pub manager : Option Manager
  pub told : List Call
  -- links past the limit gate, where one that was entered stays, the links that were then visited, and the
  -- responses past theirs
  pub gated : List String
  pub visits : List String
  pub open_pages : List Response
  pub cancelled : Bool

pub data Event : Type 0 where
  gate : String → Event
  enter : String → Event
  respond : Response → Event
  finish : ℕ → Event
  fail_request : Event
  cancel : Event

-- `cctx.opts.Limit > 0 && *cctx.processedCount >= cctx.opts.Limit`
abbrev pub limit_reached : ℤ → ℕ → Bool
limit_reached (pos n) processed = ltb 0 n && leb n processed
limit_reached (negsuc n) processed = false

abbrev pub nth : ℕ → List Response → Option Response
nth n [] = none
nth zero (r ∷ rs) = some r
nth (suc n) (r ∷ rs) = nth n rs

abbrev pub without : ℕ → List Response → List Response
without n [] = []
without zero (r ∷ rs) = rs
without (suc n) (r ∷ rs) = r ∷ without n rs

abbrev pub finished : ℕ → Outcome × Option Manager → Crawl → Crawl
finished n (o, m) c = record c {
  open_pages = without n c.open_pages;
  manager = m;
  told = c.told ++ outcome_calls o;
}

module _ (s : Site) (opts : Options) where
  finish_at : ℕ → Option Response → Crawl → Crawl
  unfolding finish_response
  finish_at n none c = c
  finish_at n (some r) c = finished n (finish_response s opts r c.manager) c

  -- `shouldProcessURL`, up to the limit.
  unfoldable pub gate_link : String → Crawl → Crawl
  unfolding is_wanted
  gate_link link c =
      if is_wanted s opts link && not (limit_reached opts.limit c.processed)
      then record c { gated = link ∷ c.gated }
      else c

  -- `shouldProcessURL`, where it enters the link in `visited`.
  unfoldable pub enter_link : String → Crawl → Crawl
  enter_link link c =
      if contains c.gated link && not (contains c.visited link)
      then record c {
        visited = link ∷ c.visited;
        visits = link ∷ c.visits;
        told = c.told ++ inc_discovered ∷ [];
      }
      else c

  -- `processResponse`, up to the count of the attempt.
  unfoldable pub count_response : Response → Crawl → Crawl
  unfolding is_page
  count_response r c =
      if not c.cancelled && is_page r && not (limit_reached opts.limit c.processed)
      then record c {
        processed = c.processed + 1;
        told = c.told ++ inc_attempted ∷ [];
        open_pages = r ∷ c.open_pages;
      }
      else c

  unfoldable pub step : Event → Crawl → Crawl
  unfolding finish_at gate_link enter_link count_response
  step (gate link) c = gate_link link c
  step (enter link) c = enter_link link c
  step (respond r) c = count_response r c
  step (finish n) c = finish_at n (nth n c.open_pages) c
  step fail_request c = record c { told = c.told ++ inc_attempted ∷ inc_failed ∷ [] }
  step cancel c = record c { cancelled = true }

  abbrev pub run : List Event → Crawl → Crawl
  run [] c = c
  run (e ∷ es) c = run es (step e c)

-- `newCrawlContext`
abbrev pub new_crawl_context : Option Manager → Crawl
new_crawl_context m = record {
  visited = [];
  processed = 0;
  manager = m;
  told = [];
  gated = [];
  visits = [];
  open_pages = [];
  cancelled = false;
}

abbrev all_failed : Snapshot → Bool
all_failed snap =
    ltb 0 snap.urls_attempted
    && snap.docs_written == 0
    && snap.docs_skipped == 0
    && ltb 0 snap.docs_failed

-- The end of `execute`, once colly has no more to do. Both diagnostics go by the same snapshot.
unfoldable pub conclude : Option StrategyResult → Option StrategyResult
unfolding call
conclude r =
    let snap = snapshot r in
    let r' =
      if all_failed snap
      then call
          (add_diagnostic all_fetches_failed "All fetch attempts failed"
            "Verify target is reachable; try without --render-js or with --crawl")
          r
      else r in
    if snap.urls_discovered == 0
    then call
        (add_diagnostic no_documents "No pages discovered during crawl"
          "Check URL filter, depth, or exclusions")
        r'
    else r'
