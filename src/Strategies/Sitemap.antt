-- ===== src/Strategies/Sitemap.antt =====
-- internal/strategies/sitemap.go: from a sitemap's address to the URLs whose pages are processed. XML,
-- gzip, dates, the fetcher and the context are parameters; of a page only its URL and date are kept.
pub mod Plain
pub mod Walk
pub mod Kept
pub mod Listing
pub mod Pages
pub mod Limit
pub mod Newest
mod Tests
use repodocs_go.Base.{
  ◌+◌, ◌-◌, ◌==◌, ◌&&◌, not, ltb, [], ◌∷◌, ◌++◌, none, some, inl, inr, pos, negsuc, length, map,
  if◌then◌else◌, lower_ends_with, ◌⊎◌, ℕ, Bool, List, ℤ, Option, String, zero, suc,
}
use repodocs_go.Domain.Errors.{Error, message, is_nil}
use repodocs_go.Domain.Result.{
  Call, StrategyResult, call, add_discovered, add_diagnostic, inc_failed, filter_zeroed,
  sitemap_shallow,
}
use package.text.Mathlib.Text.{◌==◌ as str_eq, starts_with}
use repodocs_go.Strategies.Sitemap.Plain.{lines, SitemapUrl, looks_like_text_sitemap, text_urls}

-- `domain.Sitemap`: the addresses of other sitemaps where `IsIndex`, else the URLs of pages.
pub data Sitemap : Type 0 where
  index : List String → Sitemap
  url_set : List SitemapUrl → Sitemap

-- What the code takes from outside. `xml_index` and `xml_urls` are xml.Unmarshal with the two types
-- that it is called for: `loc` of each sitemap, `loc` and `lastmod` of each URL. A date is a number,
-- the zero time 0.
pub record Source (W : Type 0) : Type 0 where
  pub get : String → W → (Error ⊎ String) × W
  pub gunzip : String → Error ⊎ String
  pub xml_index : String → Error ⊎ List String
  pub xml_urls : String → Error ⊎ List (String × String)
  pub time_parse : String → String → Option ℕ
  pub ctx_err : W → Error

pub record Options : Type 0 where
  pub limit : ℤ
  pub filter_url : String

abbrev formats : List String
formats =
    "2006-01-02T15:04:05Z07:00" ∷ "2006-01-02T15:04:05-07:00" ∷ "2006-01-02T15:04:05Z"
    ∷ "2006-01-02" ∷ []

-- The loop of `parseLastMod`.
abbrev pub last_mod_in : (String → String → Option ℕ) → List String → String → ℕ
last_mod_in time_parse [] s = 0
last_mod_in time_parse (format ∷ rest) s =
    let later = last_mod_in time_parse rest s in
    elim (time_parse format s) [ none ↦ later | some t ↦ t ]

-- `filterSitemapURLs`
abbrev pub with_prefix : String → List SitemapUrl → List SitemapUrl
with_prefix filter_url [] = []
with_prefix filter_url (u ∷ urls) =
    let rest = with_prefix filter_url urls in
    if starts_with u.loc filter_url then u ∷ rest else rest

unfoldable pub filter_sitemap_urls : String → List SitemapUrl → List SitemapUrl
filter_sitemap_urls filter_url urls =
    if str_eq filter_url "" then urls else with_prefix filter_url urls

-- `urls[:n]`, of a list that is longer, or all of it.
abbrev pub first_n : ℕ → List SitemapUrl → List SitemapUrl
first_n n [] = []
first_n zero (u ∷ urls) = []
first_n (suc n) (u ∷ urls) = u ∷ first_n n urls

-- The limit, where there is one.
abbrev pub limited : ℤ → List SitemapUrl → List SitemapUrl
limited (pos n) urls = if n == 0 then urls else first_n n urls
limited (negsuc n) urls = urls

-- `sortURLsByLastMod`, the most recent first. sort.Slice leaves the order of equal dates open.
abbrev pub insert_url : SitemapUrl → List SitemapUrl → List SitemapUrl
insert_url u [] = u ∷ []
insert_url u (v ∷ urls) = if ltb u.last_mod v.last_mod then v ∷ insert_url u urls else u ∷ v ∷ urls

unfoldable pub sort_urls_by_last_mod : List SitemapUrl → List SitemapUrl
sort_urls_by_last_mod [] = []
sort_urls_by_last_mod (u ∷ urls) = insert_url u (sort_urls_by_last_mod urls)

module _ {W : Type 0} (src : Source W) where
  abbrev dated : List (String × String) → List SitemapUrl
  dated [] = []
  dated ((loc, last_mod) ∷ rest) =
      record { loc = loc; last_mod = last_mod_in src.time_parse formats last_mod } ∷ dated rest

  -- The urlset of `parseSitemap`, which is read where there is no index with sitemaps in it.
  parse_url_set : String → Error ⊎ Sitemap
  unfolding looks_like_text_sitemap text_urls
  parse_url_set content = elim (src.xml_urls content) [
    | inr urls ↦ inr (url_set (dated urls))
    | inl e ↦
        if looks_like_text_sitemap (lines content)
        then inr (url_set (text_urls (lines content)))
        else inl e
  ]

  unfoldable pub parse_sitemap : String → String → Error ⊎ Sitemap
  unfolding parse_url_set text_urls lower_ends_with
  parse_sitemap content source_url =
      if lower_ends_with source_url ".txt"
      then inr (url_set (text_urls (lines content)))
      else elim (src.xml_index content) [
        | inr (s ∷ sitemaps) ↦ inr (index (s ∷ sitemaps))
        | inr [] ↦ parse_url_set content
        | inl e ↦ parse_url_set content
      ]

  decompressed : String → String → Error ⊎ String
  unfolding lower_ends_with
  decompressed url body = if lower_ends_with url ".gz" then src.gunzip body else inr body

  -- What an answer of the fetcher holds: the first steps of `execute` and of `collectURLsFromSitemap`.
  unfoldable pub sitemap_of : String → Error ⊎ String → Error ⊎ Sitemap
  unfolding decompressed parse_sitemap
  sitemap_of url (inl e) = inl e
  sitemap_of url (inr body) = elim (decompressed url body) [
    | inl e ↦ inl e
    | inr content ↦ parse_sitemap content url
  ]
