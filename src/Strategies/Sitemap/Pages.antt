-- ===== src/Strategies/Sitemap/Pages.antt =====
-- internal/strategies/sitemap.go: `processURLs`. The existence test, the fetcher, the reader of
-- Markdown, the renderer, the converter and the writer are functions of the page, and a document is
-- its content; the progress bar is left out.
pub mod Tally
mod Tests
use Prim.Native.String as Text
use repodocs_go.Base.{
  byte_length, ◌&&◌, ◌||◌, not, [], ◌∷◌, ◌++◌, none, some, inl, inr, pos, length, map,
  if◌then◌else◌, ◌⊎◌, ℕ, Bool, List, ℤ, Option, String,
}
use repodocs_go.Domain.Errors.{Error, nil, is_nil}
use repodocs_go.Domain.Result.{
  Call, StrategyResult, call, calls, add_attempted, add_bytes_written, inc_written, inc_skipped,
  inc_failed,
}
use repodocs_go.Utils.Parallel
use repodocs_go.Utils.Parallel.{Pool, Event, errors_of, first_error}
use repodocs_go.Strategies.Callbacks.{
  Outcome, skipped, failed, dry, written, outcome_calls, item_calls,
}
use repodocs_go.Converter.ContentType.{is_markdown_content}
use repodocs_go.Strategies.Sitemap.Plain.{SitemapUrl}

pub record Page : Type 0 where
  pub content_type : String
  pub body : String

pub record Pages : Type 0 where
  pub exists : String → Bool
  pub get : String → Error ⊎ Page
  pub read_markdown : String → String → Error ⊎ String
  pub needs_js_rendering : String → Bool
  -- GetRenderer, then Render
  pub render : Error ⊎ (String → Error ⊎ String)
  pub convert : String → String → Error ⊎ String
  pub write_document : String → String → Error

pub record PageOptions : Type 0 where
  pub force : Bool
  pub dry_run : Bool
  pub render_js : Bool

module _ (pages : Pages) (opts : PageOptions) where
  -- The HTML, rendered where that is asked for and succeeds.
  rendered_html : String → String → String
  rendered_html url html =
      if opts.render_js || pages.needs_js_rendering html
      then elim pages.render [
        | inl e ↦ html
        | inr render ↦ elim (render url) [ inl e ↦ html | inr rendered ↦ rendered ]
      ]
      else html

  document : String → Page → Error ⊎ String
  unfolding rendered_html is_markdown_content
  document url page =
      if is_markdown_content page.content_type url
      then pages.read_markdown page.body url
      else pages.convert (rendered_html url page.body) url

  write_outcome : String → Error ⊎ String → Outcome
  write_outcome url (inl e) = failed
  write_outcome url (inr content) =
      if opts.dry_run
      then dry
      else if is_nil (pages.write_document url content)
      then written (byte_length content)
      else failed

  unfoldable pub page_outcome : SitemapUrl → Outcome
  unfolding document write_outcome
  page_outcome u =
      if not opts.force && pages.exists u.loc then skipped else elim (pages.get u.loc) [
        | inl e ↦ failed
        | inr page ↦ write_outcome u.loc (document u.loc page)
      ]

  -- The calls of the callbacks for a list of URLs, one after the other.
  unfoldable pub page_calls : List SitemapUrl → List Call
  unfolding page_outcome
  page_calls = item_calls (λ u. outcome_calls (page_outcome u))

-- `processURLs`, under a schedule `es` of the goroutines, whose calls on the result are `cs` in the
-- order in which they take its lock.
unfoldable pub process_urls :
    ℤ
    → List Event
    → List Call
    → List SitemapUrl
    → Option StrategyResult
    → Error × Option StrategyResult
unfolding call Parallel.start
process_urls concurrency es cs urls r = (
  first_error (errors_of (λ u. nil) (Parallel.run es (Parallel.start urls concurrency)).slots),
  calls cs (call (add_attempted (pos (length urls))) r),
)
