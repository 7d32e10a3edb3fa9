-- ===== src/Strategies/Crawler/Tests.antt =====
-- A crawl of two pages, the second of which was written by an earlier run.
use mathlib.Core.List.{Memᴰ}
use package.text.Mathlib.Text.{◌==◌ as str_eq}
use repodocs_go.Base.{
  ◌≡◌, refl, ◌≤◌, ◌+◌, All, Distinct, length, inl, inr, some, [], ◌∷◌, pos, true, false, List,
  String, Option,
}
use repodocs_go.Domain.Errors.{nil, message}
use repodocs_go.Domain.Result.{calls, snapshot, completed_docs, new_strategy_result}
use repodocs_go.State.{Manager, PageState, get_page}
use repodocs_go.Utils.Url.{Url}
use repodocs_go.Strategies.Crawler.Page.{Site, Options, Response, is_wanted}
use repodocs_go.Strategies.Crawler.{
  step, Crawl, Event, gate, enter, respond, finish, fail_request, run, new_crawl_context,
}
use repodocs_go.Strategies.Crawler.Counts.{WithinLimit}
use repodocs_go.Strategies.Crawler.Tally.{run-Counts}
use repodocs_go.Strategies.Crawler.Unseen.{deleted_in, run-existing_deleted}

abbrev url_of : String → Option Url
url_of u = some record { scheme = "https"; host = "e.com"; path = u }

abbrev site : Site
site = record {
  parse = url_of;
  base_url = "/";
  excluded = λ u. str_eq u "/logout";
  exists = λ u. str_eq u "/old";
  read_markdown = λ body u. inr record { content = body; content_hash = "" };
  needs_js_rendering = λ html. false;
  renderer = inl (message "no browser");
  convert = λ html u. inr record { content = html; content_hash = "hash" };
  write = λ u content. nil;
  file_path = λ u. u;
  now = 7;
}

abbrev options : Options
options = record {
  limit = pos 2;
  force = false;
  dry_run = false;
  render_js = false;
  filter_url = "";
}

abbrev html_at : String → Response
html_at u = record { url = u; content_type = "text/html"; body = "text" }

abbrev events : List Event
events =
    respond (html_at "/")
    ∷ gate "/old"
    ∷ gate "/logout"
    ∷ gate "/old"
    ∷ enter "/old"
    ∷ enter "/old"
    ∷ respond (html_at "/old")
    ∷ finish 1
    ∷ respond (html_at "/more")
    ∷ fail_request
    ∷ finish 0
    ∷ []

abbrev old_page : PageState
old_page = record { content_hash = "hash"; fetched_at = 1; file_path = "/old" }

abbrev manager : Manager
manager = record {
  state = record {
    version = 1;
    source_url = "/";
    strategy = "crawler";
    last_sync = 1;
    pages = ("/old", old_page) ∷ [];
  };
  dirty = false;
  disabled = false;
  seen_urls = [];
}

abbrev crawled : Crawl
crawled = run site options events (new_crawl_context (some manager))

ended : (crawled.visits ≡ "/old" ∷ []) × (crawled.processed ≡ 2) × (length crawled.open_pages ≡ 0)
unfolding step
ended = (refl, refl, refl)

run-Counts_example :
    let r = calls crawled.told (some (new_strategy_result "crawler" "/" 0)) in
    Distinct crawled.visits
    × All (λ u. is_wanted site options u ≡ true) crawled.visits
    × WithinLimit (pos 2) crawled.processed
    × (completed_docs r + length crawled.open_pages ≤ crawled.processed)
    × ((snapshot r).urls_discovered ≡ length crawled.visits)
    × (completed_docs r + (snapshot r).docs_failed + length crawled.open_pages
        ≤ (snapshot r).urls_attempted)
run-Counts_example = run-Counts site options (some manager) "crawler" "/" 0 events

run-existing_deleted_example : Memᴰ old_page (deleted_in crawled.manager)
unfolding get_page
run-existing_deleted_example =
    run-existing_deleted site options "/old" old_page manager events refl refl refl refl refl
