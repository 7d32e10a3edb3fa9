-- ===== src/Strategies/GithubPages/Pages/Tests.antt =====
-- A dry run over two pages, one of which needs the browser and one of which is not found.
use mathlib.Core.List.Perm
use Prim.Native.String as Text
use package.text.Mathlib.Text.{◌==◌ as str_eq}
use repodocs_go.Base.{
  ◌≡◌, refl, ◌+◌, inl, inr, some, [], ◌∷◌, pos, negsuc, true, false, if◌then◌else◌, List, String,
}
use repodocs_go.Domain.Errors.{nil, message, is_nil}
use repodocs_go.Domain.Result.{Call, inc_failed, snapshot, completed_docs, new_strategy_result}
use repodocs_go.Domain.Result.Diagnosed.{all_failed_said}
use repodocs_go.Utils.Parallel
use repodocs_go.Utils.Parallel.{Event, submit, take, finish, close, quit}
use repodocs_go.Utils.Parallel.Finished.{count_items}
use repodocs_go.Strategies.GithubPages.Pages.{
  Site, PageOptions, page_end, needs_browser, concurrency_for, process_urls,
}
use repodocs_go.Strategies.GithubPages.Pages.Tally.{process_urls-reports}

abbrev ten : String
ten = "0123456789"

abbrev fifty : String
fifty = Text.◌++◌ ten (Text.◌++◌ ten (Text.◌++◌ ten (Text.◌++◌ ten ten)))

-- Of a page that the browser rendered, long enough not to be taken for empty.
abbrev html : String
html = Text.◌++◌ fifty (Text.◌++◌ fifty (Text.◌++◌ fifty (Text.◌++◌ fifty (Text.◌++◌ fifty fifty))))

abbrev site : Site
site = record {
  exists = λ url. false;
  get = λ url. inr (200, "<div id=\"app\"></div>");
  needs_js_rendering = λ page. false;
  renderer = inr (λ url. if str_eq url "gone" then inl (message "404") else inr html);
  body_text = λ page. inr page;
  convert = λ page url. inr page;
  write_document = λ url text. nil;
}

abbrev dry_run : PageOptions
dry_run = record { force = false; dry_run = true; render_js = false; concurrency = pos 1 }

abbrev schedule : List Event
schedule = submit 0 ∷ submit 1 ∷ take 0 ∷ take 1 ∷ close ∷ finish 0 ∷ finish 1 ∷ quit ∷ quit ∷ []

abbrev told : List Call
told = inc_failed ∷ needs_browser ∷ []

process_urls-reports_example :
    let (err, r) =
      process_urls
        (negsuc 3)
        schedule
        told
        ("a" ∷ "gone" ∷ [])
        (some (new_strategy_result "github_pages" "u" 0)) in
    (is_nil err ≡ true)
    × ((snapshot r).urls_attempted ≡ 2)
    × ((snapshot r).docs_failed ≡ 1)
    × (completed_docs r ≡ 0)
    × (1 + 0 + 1 ≡ 2)
    × (all_failed_said r ≡ 1)
unfolding Parallel.step Parallel.start Parallel.count count_items page_end concurrency_for
process_urls-reports_example =
    process_urls-reports site dry_run "github_pages" "u" 0 (negsuc 3) schedule told
      ("a" ∷ "gone" ∷ []) (refl, refl, refl) refl (Perm.refl told)
