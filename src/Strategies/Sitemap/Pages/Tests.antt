-- ===== src/Strategies/Sitemap/Pages/Tests.antt =====
-- internal/strategies/sitemap.go: the callbacks of `processURLs` on four pages, two of which fail.
use repodocs_go.Base.{◌≡◌, refl, inl, inr, [], ◌∷◌, true, false, if◌then◌else◌, List, String}
use repodocs_go.Domain.Errors.{nil, message}
use package.text.Mathlib.Text.{◌==◌ as str_eq}
use repodocs_go.Utils.Parallel.Finished.{count_items}
use repodocs_go.Strategies.Sitemap.Plain.{SitemapUrl}
use repodocs_go.Strategies.Sitemap.Pages.{Pages, PageOptions, page_outcome}
use repodocs_go.Strategies.Callbacks.{is_failed}
use repodocs_go.Strategies.Sitemap.Pages.Tally.{ends}

abbrev site : Pages
site = record {
  exists = λ url. str_eq url "b";
  get = λ url.
      if str_eq url "gone"
      then inl (message "not found")
      else inr record { content_type = "text/html"; body = "<p>text</p>" };
  read_markdown = λ body url. inr body;
  needs_js_rendering = λ html. false;
  render = inl (message "no browser");
  convert = λ html url. inr "text";
  write_document = λ url content. if str_eq url "full" then message "no space left" else nil;
}

abbrev writing : PageOptions
writing = record { force = false; dry_run = false; render_js = true }

abbrev url_of : String → SitemapUrl
url_of s = record { loc = s; last_mod = 0 }

abbrev four : List SitemapUrl
four = url_of "a" ∷ url_of "b" ∷ url_of "gone" ∷ url_of "full" ∷ []

failed_test : count_items (ends is_failed site writing) four ≡ 2
unfolding count_items ends page_outcome
failed_test = refl
