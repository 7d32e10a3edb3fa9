-- ===== src/Strategies/GithubPages/Pages.antt =====
-- internal/strategies/github_pages.go: `execute` and `processURLs`. The fetcher, the browser, goquery, the
-- converter, the writer and the test for a page that is there are functions of the URL, and a document
-- is its content; the progress bar and the logs are left out.
pub mod Tally
mod Tests
use Prim.Native.String as Text
use repodocs_go.Base.{
  byte_length, ◌&&◌, ◌||◌, ◌==◌, not, ltb, [], ◌∷◌, ◌++◌, none, some, inl, inr, pos, negsuc, length,
  if◌then◌else◌, ◌⊎◌, ℕ, true, false, Bool, List, ℤ, Option, String, trim_space, trim_suffix,
  lower_codes, lower_code, codes, holds,
}
use package.text.Mathlib.Text.{◌==◌ as str_eq}
use repodocs_go.Domain.Errors.{Error, nil, is_nil, message}
use repodocs_go.Domain.Result.{
  Call, StrategyResult, Snapshot, call, calls, snapshot, add_discovered, add_attempted,
  add_diagnostic, all_fetches_failed, no_documents, js_required,
}
use repodocs_go.Utils.Parallel
use repodocs_go.Utils.Parallel.{Event, errors_of, first_error}
use repodocs_go.Strategies.Callbacks.{
  Outcome, skipped, failed, dry, written, outcome_calls, item_calls,
}
use repodocs_go.Strategies.GithubPages.Filter.{Parsed, selected_urls}
use repodocs_go.Strategies.GithubPages.Crawl.{discover_via_browser}

pub record Site : Type 0 where
  pub exists : String → Bool
  -- the status and the body
  pub get : String → Error ⊎ (ℕ × String)
  pub needs_js_rendering : String → Bool
  -- GetRenderer, then Render
  pub renderer : Error ⊎ (String → Error ⊎ String)
  -- the text of the body of a document, as goquery reads it
  pub body_text : String → Error ⊎ String
  pub convert : String → String → Error ⊎ String
  pub write_document : String → String → Error

pub record PageOptions : Type 0 where
  pub force : Bool
  pub dry_run : Bool
  pub render_js : Bool
  pub concurrency : ℤ

abbrev spa_indicators : List String
spa_indicators =
    "<div id=\"app\"></div>" ∷ "<div id=\"root\"></div>" ∷ "<div id=\"__next\"></div>"
    ∷ "<div id=\"__nuxt\"></div>" ∷ "<body></body>" ∷ "<body> </body>" ∷ []

abbrev error_indicators : List String
error_indicators =
    "301 moved permanently" ∷ "302 found" ∷ "404 not found" ∷ "page not found" ∷ "access denied"
    ∷ "403 forbidden" ∷ []

-- Whether one of the indicators stands in the lower-cased page.
abbrev holds_any : List ℕ → List String → Bool
holds_any lower [] = false
holds_any lower (i ∷ indicators) = holds lower (codes i) || holds_any lower indicators

-- Whether the text that can be read is shorter than a bound, or cannot be read.
abbrev shorter : ℕ → Error ⊎ String → Bool
shorter n (inl e) = true
shorter n (inr text) = ltb (byte_length (trim_space text)) n

module _ (s : Site) where
  -- The text is the same for each indicator that the loop finds.
  unfoldable pub looks_like_spa_shell : String → Bool
  unfolding lower_code trim_space
  looks_like_spa_shell html =
      ltb (byte_length html) 500
      || holds_any (lower_codes (codes html)) spa_indicators && shorter 100 (s.body_text html)

  unfoldable pub is_empty_or_error_content : String → Bool
  unfolding lower_code trim_space
  is_empty_or_error_content html =
      ltb (byte_length html) 300
      || holds_any (lower_codes (codes html)) error_indicators
      || shorter 60 (s.body_text html)

  abbrev rendered : String → Error ⊎ (String → Error ⊎ String) → Error ⊎ (String × Bool)
  rendered url (inl e) = inl e
  rendered url (inr render) = elim (render url) [ inl e ↦ inl e | inr html ↦ inr (html, true) ]

  -- The HTML of an answer that can do without the browser.
  plain_html : Error ⊎ (ℕ × String) → Option String
  unfolding looks_like_spa_shell
  plain_html (inl e) = none
  plain_html (inr (status, html)) =
      if status == 200 && not (looks_like_spa_shell html) && not (s.needs_js_rendering html)
      then some html
      else none

  -- The HTML, and whether the browser was used.
  unfoldable pub fetch_or_render_page : Bool → String → Error ⊎ (String × Bool)
  unfolding plain_html
  fetch_or_render_page render_js url = elim (if render_js then none else plain_html (s.get url)) [
    | some html ↦ inr (html, false)
    | none ↦ rendered url s.renderer
  ]

  module _ (opts : PageOptions) where
    -- What becomes of a document.
    write_outcome : String → String → Outcome
    write_outcome url content =
        if opts.dry_run
        then dry
        else if is_nil (s.write_document url content)
        then written (byte_length content)
        else failed

    -- Whether the browser is reported as needed, and how the callback ends.
    convert_page : String → String × Bool → Bool × Outcome
    unfolding is_empty_or_error_content write_outcome trim_space
    convert_page url (html, used_browser) =
        if is_empty_or_error_content html then (false, failed) else elim (s.convert html url) [
          | inl e ↦ (false, failed)
          | inr content ↦
              if ltb (byte_length (trim_space content)) 50
              then (false, failed)
              else (used_browser, write_outcome url content)
        ]

    unfoldable pub page_end : String → Bool × Outcome
    unfolding convert_page fetch_or_render_page
    page_end url =
        if not opts.force && s.exists url
        then (false, skipped)
        else elim (fetch_or_render_page opts.render_js url) [
          | inl e ↦ (false, failed)
          | inr fetched ↦ convert_page url fetched
        ]

abbrev pub needs_browser : Call
needs_browser =
    add_diagnostic js_required "Browser rendering required for some pages"
      "The site uses client-side rendering; JS rendering adds latency"

-- The calls of a callback on the result.
abbrev pub end_calls : Bool × Outcome → List Call
end_calls (reported, o) = (if reported then needs_browser ∷ [] else []) ++ outcome_calls o

abbrev max_concurrency : ℕ
max_concurrency = 5

abbrev default_concurrency : ℕ
default_concurrency = 2

unfoldable pub concurrency_for : ℤ → ℤ
concurrency_for (pos n) =
    if ltb max_concurrency n
    then pos max_concurrency
    else if n == 0
    then pos default_concurrency
    else pos n
concurrency_for (negsuc n) = pos default_concurrency

-- What follows the callbacks.
abbrev pub all_failed : Snapshot → Bool
all_failed snap =
    ltb 0 snap.urls_attempted
    && snap.docs_written == 0
    && snap.docs_skipped == 0
    && ltb 0 snap.docs_failed

unfoldable pub conclude : Error × Option StrategyResult → Error × Option StrategyResult
unfolding call
conclude (err, r) =
    if is_nil err
    then (
      nil,
      if all_failed (snapshot r)
          then call
              (add_diagnostic all_fetches_failed "All page fetch attempts failed"
                "Verify the site is accessible and not blocking automated access")
              r
          else r,
    )
    else (err, r)

-- `processURLs`, under a schedule `es` of the goroutines whose calls on the result are `cs` in the order in
-- which they take its lock. All callbacks return nil.
unfoldable pub process_urls :
    ℤ → List Event → List Call → List String → Option StrategyResult → Error × Option StrategyResult
unfolding concurrency_for conclude
process_urls concurrency es cs urls r = conclude (
  first_error (
      errors_of (λ u. nil)
        (Parallel.run es (Parallel.start urls (concurrency_for concurrency))).slots),
  calls (add_attempted (pos (length urls)) ∷ cs) r,
)
