-- ===== src/Strategies/Crawler/Page.antt =====
-- internal/strategies/crawler.go: the conditions of `shouldProcessURL`, and what becomes of a response. The
-- parsers, the browser, the converter and the writer are functions of the page.
use package.text.Mathlib.Text.{◌==◌ as str_eq}
use repodocs_go.Base.{
  byte_length, Bool, false, not, ◌&&◌, ◌||◌, String, Option, none, some, ℕ, ◌⊎◌, inl, inr, ℤ,
  lower_contains, if◌then◌else◌,
}
use repodocs_go.Domain.Errors.{Error, is_nil}
use repodocs_go.State.{Manager, mark_seen, should_process, update}
use repodocs_go.Utils.Url.{Url, is_same_domain, has_base_url}
use repodocs_go.Converter.ContentType.{is_markdown_content}
use repodocs_go.Strategies.Callbacks.{Outcome, skipped, failed, dry, written}

pub record Document : Type 0 where
  pub content : String
  pub content_hash : String

pub record Response : Type 0 where
  pub url : String
  pub content_type : String
  pub body : String

pub record Site : Type 0 where
  pub parse : String → Option Url
  pub base_url : String
  -- whether an exclude pattern that compiles matches
  pub excluded : String → Bool
  pub exists : String → Bool
  pub read_markdown : String → String → Error ⊎ Document
  pub needs_js_rendering : String → Bool
  -- GetRenderer, then Render
  pub renderer : Error ⊎ (String → Error ⊎ String)
  pub convert : String → String → Error ⊎ Document
  -- `Writer.Write`, and the path and the time that go into the record
  pub write : String → String → Error
  pub file_path : String → String
  pub now : ℕ

pub record Options : Type 0 where
  pub limit : ℤ
  pub force : Bool
  pub dry_run : Bool
  pub render_js : Bool
  pub filter_url : String

unfoldable pub is_html_content_type : String → Bool
unfolding lower_contains
is_html_content_type content_type =
    str_eq content_type ""
    || lower_contains content_type "text/html"
    || lower_contains content_type "application/xhtml"

abbrev pub on_manager : (Manager → Manager) → Option Manager → Option Manager
on_manager f none = none
on_manager f (some m) = some (f m)

-- `doc.ContentHash != "" && !StateManager.ShouldProcess(...)`
unfoldable pub is_unchanged : String → String → Option Manager → Bool
unfolding should_process
is_unchanged url hash none = false
is_unchanged url hash (some m) = not (str_eq hash "") && not (should_process url hash m)

unfoldable pub is_page : Response → Bool
unfolding is_markdown_content is_html_content_type
is_page r = is_markdown_content r.content_type r.url || is_html_content_type r.content_type

module _ (s : Site) (opts : Options) where
  -- The conditions of `shouldProcessURL` before the limit.
  unfoldable pub is_wanted : String → Bool
  unfolding is_same_domain has_base_url
  is_wanted link =
      not (str_eq link "")
      && is_same_domain s.parse link s.base_url
      && (str_eq opts.filter_url "" || has_base_url s.parse link opts.filter_url)
      && not (s.excluded link)

  abbrev rendered : String → String → Error ⊎ (String → Error ⊎ String) → String
  rendered url html (inl e) = html
  rendered url html (inr render) = elim (render url) [ inl e ↦ html | inr js ↦ js ]

  -- `processHTMLResponse`
  process_html_response : String → String → Error ⊎ Document
  process_html_response url html =
      s.convert
        (if opts.render_js || s.needs_js_rendering html then rendered url html s.renderer else html)
        url

  unfoldable pub document : Response → Error ⊎ Document
  unfolding process_html_response is_markdown_content
  document r =
      if is_markdown_content r.content_type r.url
      then s.read_markdown r.body r.url
      else process_html_response r.url r.body

  -- `WriteDocument`, with a writer and without an enhancer of the metadata.
  unfoldable pub write_document : String → Document → Option Manager → Outcome × Option Manager
  unfolding update
  write_document url doc m =
      if is_nil (s.write url doc.content)
      then (
        written (byte_length doc.content),
        if str_eq doc.content_hash ""
            then m
            else on_manager
                (update url record {
                  content_hash = doc.content_hash;
                  fetched_at = s.now;
                  file_path = s.file_path url;
                })
                m,
      )
      else (failed, m)

  unfoldable pub keep_document : String → Document → Option Manager → Outcome × Option Manager
  unfolding is_unchanged write_document
  keep_document url doc m =
      if is_unchanged url doc.content_hash m
      then (skipped, m)
      else if opts.dry_run
      then (dry, m)
      else write_document url doc m

  -- `processResponse`, after the limit gate.
  unfoldable pub finish_response : Response → Option Manager → Outcome × Option Manager
  unfolding document keep_document mark_seen
  finish_response r m =
      if not opts.force && s.exists r.url then (skipped, m) else elim (document r) [
        | inl e ↦ (failed, m)
        | inr doc ↦ keep_document r.url doc (on_manager (mark_seen r.url) m)
      ]
