-- ===== src/Strategies/GithubPages/Discovery.antt =====
-- internal/strategies/github_pages.go: `execute`, from the address to the pages that are processed.
use Prim.Native.String as Text
use package.text.Mathlib.Text.{◌==◌ as str_eq}
use repodocs_go.Base.{
  ◌&&◌, not, [], ◌∷◌, none, some, inl, inr, pos, length, if◌then◌else◌, ◌⊎◌, Bool, List, ℤ, Option,
  String, trim_suffix,
}
use repodocs_go.Domain.Errors.{Error, nil, wrapped}
use repodocs_go.Domain.Result.{
  Call, StrategyResult, call, add_discovered, add_diagnostic, no_documents,
}
use repodocs_go.Utils.Parallel.{Event}
use repodocs_go.Utils.Url.{Url}
use repodocs_go.Strategies.GithubPages.Filter.{Parsed, selected_urls}
use repodocs_go.Strategies.GithubPages.Probes.{ProbeResult, discover_via_http_probes}
use repodocs_go.Strategies.GithubPages.Crawl.{discover_via_browser}
use repodocs_go.Strategies.GithubPages.Pages.{process_urls}

abbrev base_of : Url → String
base_of u =
    let scheme = if str_eq u.scheme "" then "https" else u.scheme in
    let base = Text.◌++◌ scheme (Text.◌++◌ "://" u.host) in
    if not (str_eq u.path "") && not (str_eq u.path "/")
    then Text.◌++◌ base (trim_suffix u.path "/")
    else base

-- url.Parse of the address is the argument.
unfoldable pub normalize_base_url : Error ⊎ Url → Error ⊎ String
normalize_base_url (inl e) = inl e
normalize_base_url (inr u) = inr (base_of u)

-- What discovery takes from outside: what arrives of the probes, the error of GetRenderer, and the links of a
-- rendered page.
pub record Discovery : Type 0 where
  pub arrived : List ProbeResult
  pub renderer : Option Error
  pub links_of : String → Error ⊎ List String

pub record SiteOptions : Type 0 where
  pub limit : ℤ
  pub max_depth : ℤ
  pub filter_url : String
  pub concurrency : ℤ

module _ (d : Discovery) (opts : SiteOptions) where
  -- The crawl with the browser, which gives no error.
  crawl : String → Option Error → Error ⊎ (List String × String)
  unfolding discover_via_browser
  crawl base (some e) =
      inl (wrapped "no URLs found via HTTP probes and browser renderer failed: %w" e)
  crawl base none =
      inr (discover_via_browser d.links_of opts.limit opts.max_depth base, "browser-crawl")

  -- The URLs and the method. The probes give no empty list.
  or_crawl : String → Error ⊎ (List String × String) → Error ⊎ (List String × String)
  unfolding crawl
  or_crawl base (inr (u ∷ urls, method)) = inr (u ∷ urls, method)
  or_crawl base (inr ([], method)) = crawl base d.renderer
  or_crawl base (inl e) = crawl base d.renderer

  unfoldable pub discover_urls : String → Error ⊎ (List String × String)
  unfolding or_crawl discover_via_http_probes
  discover_urls base = or_crawl base (discover_via_http_probes d.arrived)

  module _ (parse : String → Option Parsed) (excluded : String → Bool) (es : List Event)
      (cs : List Call) where
    abbrev no_urls : Call
    no_urls =
        add_diagnostic no_documents "No URLs discovered on GitHub Pages site"
          "The site may use a different structure or require authentication"

    process_found : String → List String → Option StrategyResult → Error × Option StrategyResult
    unfolding selected_urls process_urls call
    process_found base [] r = (nil, call no_urls r)
    process_found base (u ∷ found) r =
        let urls = selected_urls parse excluded opts.filter_url opts.limit base (u ∷ found) in
        process_urls opts.concurrency es cs urls (call (add_discovered (pos (length urls))) r)

    on_found :
        String
        → Error ⊎ (List String × String)
        → Option StrategyResult
        → Error × Option StrategyResult
    unfolding process_found
    on_found base (inl e) r = (wrapped "URL discovery failed: %w" e, r)
    on_found base (inr (urls, method)) r = process_found base urls r

    unfoldable pub execute : Error ⊎ Url → Option StrategyResult → Error × Option StrategyResult
    unfolding normalize_base_url discover_urls on_found
    execute parsed r = elim (normalize_base_url parsed) [
      | inl e ↦ (wrapped "invalid URL: %w" e, r)
      | inr base ↦ on_found base (discover_urls base) r
    ]
