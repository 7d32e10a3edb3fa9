-- ===== src/Strategies/Sitemap/Tests.antt =====
-- internal/strategies/sitemap.go: concrete sitemaps, and the theorems at them.
use repodocs_go.Base.{
  ◌≡◌, refl, inl, inr, none, some, [], ◌∷◌, pos, true, if◌then◌else◌, ◌⊎◌, ℕ, List, Option, String,
  ◌+◌, arith,
}
use repodocs_go.Domain.Errors.{Error, nil, message, is_nil}
use repodocs_go.Domain.Result.{StrategyResult}
use package.text.Mathlib.Text.{◌==◌ as str_eq}
use repodocs_go.Strategies.Sitemap.{
  Sitemap, Source, Options, sitemap_of, filter_sitemap_urls, limited,
}
use repodocs_go.Strategies.Sitemap.Plain.{SitemapUrl}
use repodocs_go.Strategies.Sitemap.Walk.{Progress, process_sitemap_index, execute}
use repodocs_go.Strategies.Sitemap.Listing.{
  Lists, nothing, unread, pages, nested, process_sitemap_index-listing,
}

abbrev url_at : String → ℕ → SitemapUrl
url_at s n = record { loc = s; last_mod = n }

abbrev body_of : String → Error ⊎ String
body_of url =
    if str_eq url "http://a/one.txt"
    then inr "# docs\r\nhttp://a/docs/1\n  http://a/blog/2 \nftp://a/3\nhttp://a/docs/4"
    else if str_eq url "http://a/deep.xml"
    then inr "deep"
    else if str_eq url "http://a/two.txt"
    then inr "https://a/5\nhttp://a/docs/6"
    else if str_eq url "http://a/dated.xml"
    then inr "dated"
    else inl (message "not found")

abbrev entries_of : String → Error ⊎ List String
entries_of body =
    if str_eq body "deep"
    then inr ("http://a/two.txt" ∷ [])
    else inl (message "expected sitemapindex")

abbrev dated_urls : String → Error ⊎ List (String × String)
dated_urls body =
    if str_eq body "dated"
    then inr (
        ("http://a/docs/old", "2020")
        ∷ ("http://a/docs/new", "2024")
        ∷ ("http://a/blog/newest", "2025")
        ∷ [])
    else inl (message "syntax")

abbrev year : String → String → Option ℕ
year format s =
    if str_eq s "2020"
    then some 2020
    else if str_eq s "2024"
    then some 2024
    else if str_eq s "2025"
    then some 2025
    else none

abbrev source : Source ℕ
source = record {
  get = λ url w. (body_of url, w + 1);
  gunzip = λ body. inr body;
  xml_index = entries_of;
  xml_urls = dated_urls;
  time_parse = year;
  ctx_err = λ w. nil;
}

abbrev process : List SitemapUrl → Option StrategyResult → ℕ → Error × Option StrategyResult × ℕ
process us r w = (nil, r, w)

abbrev start_of_run : Progress ℕ
start_of_run = record { result = none; handed = []; total_discovered = 0; world = 0 }

abbrev answer : String → Error ⊎ Sitemap
answer url = sitemap_of source url (body_of url)

abbrev entries : List String
entries = "http://a/one.txt" ∷ "http://a/gone.xml" ∷ "http://a/deep.xml" ∷ []

abbrev listed_urls : List SitemapUrl
listed_urls =
    url_at "http://a/docs/1" 0
    ∷ url_at "http://a/blog/2" 0
    ∷ url_at "http://a/docs/4" 0
    ∷ url_at "https://a/5" 0
    ∷ url_at "http://a/docs/6" 0
    ∷ []

listing : Lists answer entries listed_urls
unfolding sitemap_of
listing = pages _ refl (unread _ refl refl (nested refl (pages _ refl nothing) nothing))

handed_test :
    (process_sitemap_index source process
      record { limit = pos 3; filter_url = "http://a/docs" }
      4
      entries
      start_of_run).1.handed
    ≡ url_at "http://a/docs/1" 0 ∷ url_at "http://a/docs/4" 0 ∷ url_at "http://a/docs/6" 0 ∷ []
unfolding process_sitemap_index
handed_test = refl

process_sitemap_index-listing_example :
    let (err, p) =
      process_sitemap_index source process
        record { limit = pos 2; filter_url = "http://a/docs" }
        4
        entries
        start_of_run in
    (is_nil err ≡ true)
    × (p.handed ≡ limited (pos 2) (filter_sitemap_urls "http://a/docs" listed_urls))
unfolding listing
process_sitemap_index-listing_example =
    process_sitemap_index-listing source answer (λ url w. refl) (λ w. refl) "http://a/docs" process
      (pos 2) (λ us r w. refl) entries listed_urls listing 4 start_of_run (omega arith) refl

abbrev docs_of_two : Options
docs_of_two = record { limit = pos 2; filter_url = "http://a/docs" }

-- The limit leaves the older page of the documentation out, and the filter then drops the other page.
fewer_than_limit_test :
    (execute source process docs_of_two 3 "http://a/dated.xml" start_of_run).1.handed
    ≡ url_at "http://a/docs/new" 2024 ∷ []
unfolding execute
fewer_than_limit_test = refl

abbrev dated : List SitemapUrl
dated =
    url_at "http://a/docs/old" 2020
    ∷ url_at "http://a/docs/new" 2024
    ∷ url_at "http://a/blog/newest" 2025
    ∷ []
