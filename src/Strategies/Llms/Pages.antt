-- ===== src/Strategies/Llms/Pages.antt =====
-- internal/strategies/llms.go: `execute`. The fetcher, the readers, the converter, the writer and the test
-- for a page that is there are functions of the URL, and a document is its content; the title and the
-- description that it takes over from the link are left out, as is the progress bar.
pub mod Tally
use repodocs_go.Base.{
  byte_length, ◌&&◌, ◌==◌, not, ltb, [], ◌∷◌, ◌++◌, none, some, inl, inr, pos, length,
  if◌then◌else◌, ◌⊎◌, ℕ, Bool, List, ℤ, Option, String, map,
}
use package.text.Mathlib.Text.{◌==◌ as str_eq}
use repodocs_go.Domain.Errors.{Error, nil, is_nil, message}
use repodocs_go.Domain.Result.{
  Call, StrategyResult, Snapshot, call, calls, snapshot, add_discovered, add_attempted,
  add_diagnostic, all_fetches_failed, no_documents,
}
use repodocs_go.Utils.Parallel
use repodocs_go.Utils.Parallel.{Event, errors_of, first_error}
use repodocs_go.Utils.Url.{Url}
use repodocs_go.Converter.ContentType.{is_markdown_content, is_plain_text_content}
use repodocs_go.Strategies.Callbacks.{
  Outcome, skipped, failed, dry, written, outcome_calls, item_calls,
}
use repodocs_go.Strategies.Llms.{
  LlmsLink, Patterns, parse_llms_links, resolved, filter_llms_links, limit_links,
}

pub record Page : Type 0 where
  pub content_type : String
  pub body : String

-- The strategy with its dependencies, none of them nil.
pub record Llms : Type 0 where
  pub exists : String → Bool
  pub get : String → Error ⊎ Page
  pub read_markdown : String → String → Error ⊎ String
  pub read_plain_text : String → String → Error ⊎ String
  pub convert : String → String → Error ⊎ String
  pub write_document : String → String → Error
  pub patterns : Patterns
  pub parse : String → Option Url
  -- `utils.ResolveURL` of the address of the llms.txt and a link
  pub resolve_url : String → String → Error ⊎ String

pub record LlmsOptions : Type 0 where
  pub force : Bool
  pub dry_run : Bool
  pub limit : ℤ
  pub filter_url : String
  pub concurrency : ℤ

abbrev pub all_failed : Call
all_failed =
    add_diagnostic all_fetches_failed "All link fetch/convert attempts failed"
      "Verify the linked pages are accessible and in supported formats"

-- What follows the callbacks.
abbrev pub nothing_done : Snapshot → Bool
nothing_done snap = ltb 0 snap.urls_attempted && snap.docs_written == 0 && snap.docs_skipped == 0

unfoldable pub conclude : Error × Option StrategyResult → Error × Option StrategyResult
unfolding call
conclude (err, r) =
    if is_nil err
    then (nil, if nothing_done (snapshot r) then call all_failed r else r)
    else (err, r)

module _ (s : Llms) (opts : LlmsOptions) where
  document : String → Page → Error ⊎ String
  unfolding is_markdown_content is_plain_text_content
  document url page =
      if is_markdown_content page.content_type url
      then s.read_markdown page.body url
      else if is_plain_text_content page.content_type url
      then s.read_plain_text page.body url
      else s.convert page.body url

  write_outcome : String → Error ⊎ String → Outcome
  write_outcome url (inl e) = failed
  write_outcome url (inr content) =
      if opts.dry_run
      then dry
      else if is_nil (s.write_document url content)
      then written (byte_length content)
      else failed

  -- The callback for a link.
  unfoldable pub link_outcome : LlmsLink → Outcome
  unfolding document write_outcome
  link_outcome l = if not opts.force && s.exists l.url then skipped else elim (s.get l.url) [
    | inl e ↦ failed
    | inr page ↦ write_outcome l.url (document l.url page)
  ]

  -- From the body of the llms.txt, fetched from `url`, to the links that are left by the filter.
  unfoldable pub links_in : String → String → List LlmsLink
  unfolding parse_llms_links resolved filter_llms_links
  links_in url body =
      filter_llms_links s.parse opts.filter_url
        (map (resolved (s.resolve_url url)) (parse_llms_links s.patterns body))

  -- What `FirstError` gives of the callbacks, all of which return nil, and the calls on the result.
  unfoldable pub process_links :
      List Event → List Call → List LlmsLink → Option StrategyResult → Error × Option StrategyResult
  process_links es cs links r = (
    first_error
        (errors_of (λ l. nil) (Parallel.run es (Parallel.start links opts.concurrency)).slots),
    calls (add_discovered (pos (length links)) ∷ add_attempted (pos (length links)) ∷ cs) r,
  )

  -- The links that are processed, under a schedule `es` of the goroutines whose calls on the result are `cs`
  -- in the order in which they take its lock.
  unfoldable pub execute_links :
      List Event → List Call → List LlmsLink → Option StrategyResult → Error × Option StrategyResult
  unfolding process_links conclude call
  execute_links es cs [] r = (
    nil,
    call
        (add_diagnostic no_documents "No links discovered in llms.txt"
          "The file may be empty or use an unsupported format")
        r,
  )
  execute_links es cs (l ∷ links) r =
      conclude (process_links es cs (limit_links opts.limit (l ∷ links)) r)

  -- `execute`, where the context is alive at its start; `fetched` is the answer for the llms.txt.
  unfoldable pub execute :
      List Event
      → List Call
      → String
      → Error ⊎ String
      → Option StrategyResult
      → Error × Option StrategyResult
  unfolding links_in execute_links
  execute es cs url (inl e) r = (e, r)
  execute es cs url (inr body) r = execute_links es cs (links_in url body) r
