-- ===== src/App/Detect.antt =====
-- internal/app/detector.go: `DetectStrategy`, with the tests of internal/strategies that it calls.
-- url.Parse is a parameter, and lower-casing is that of ASCII.
mod Known
mod Tests
use package.text.Mathlib.Text.{◌==◌ as str_eq, starts_with}
use repodocs_go.Base.{
  ◌&&◌, ◌||◌, not, none, some, if◌then◌else◌, Bool, String, Option, false, List, [], ◌∷◌, ◌++◌,
  trim_space, lower_contains, lower_ends_with, lower_starts_with,
}

pub record Url : Type 0 where
  pub scheme : String
  pub host : String
  pub path : String

unfoldable pub is_wiki_url : String → Bool
unfolding lower_contains lower_ends_with
is_wiki_url url =
    lower_contains url "github.com" && lower_contains url "/wiki"
    || lower_contains url "bitbucket.org" && lower_contains url "/wiki"
    || lower_ends_with url ".wiki.git"

abbrev pub is_http : Url → Bool
is_http u = str_eq u.scheme "http" || str_eq u.scheme "https"

-- `isDocsSubdomain`
unfoldable pub is_docs_subdomain : String → Bool
unfolding lower_contains
is_docs_subdomain raw_url =
    lower_contains raw_url "docs.github.com"
    || lower_contains raw_url "pages.github.io"
    || lower_contains raw_url "github.io"

unfoldable pub is_llms : Url → Bool
unfolding lower_ends_with
is_llms u = lower_ends_with u.path "/llms.txt" || lower_ends_with u.path "llms.txt"

unfoldable pub is_docs_rs : String → Url → Bool
unfolding lower_contains
is_docs_rs raw_url u =
    lower_contains raw_url "docs.rs"
    && (not (lower_contains u.path "/src/") && not (lower_contains u.path "/source/"))

unfoldable pub is_sitemap_path : Url → Bool
unfolding lower_contains lower_ends_with
is_sitemap_path u =
    lower_ends_with u.path "sitemap.xml"
    || lower_ends_with u.path "sitemap.xml.gz"
    || lower_contains u.path "sitemap" && lower_ends_with u.path ".xml"

unfoldable pub is_git : String → Url → Bool
unfolding lower_contains lower_ends_with is_docs_subdomain
is_git raw_url u =
    not (is_docs_subdomain raw_url)
    && (lower_ends_with u.path ".git"
        || lower_contains raw_url "github.com" && not (lower_contains u.path "/blob/")
        || lower_contains raw_url "gitlab.com" && not (lower_contains u.path "/-/blob/")
        || lower_contains raw_url "bitbucket.org")

-- The first return whose condition holds, and StrategyUnknown after them all.
abbrev pub first_return : List (Bool × String) → String
first_return [] = "unknown"
first_return ((condition, answer) ∷ rest) =
    let later = first_return rest in if condition then answer else later

module _ (url_parse : String → Option Url) where
  unfoldable pub is_github_pages_url : String → Bool
  unfolding lower_ends_with
  is_github_pages_url raw_url = elim (url_parse raw_url) [
    | none ↦ false
    | some u ↦ lower_ends_with u.host ".github.io"
  ]

  -- The tests for a kind of site, in their order.
  abbrev pub site_returns : String → Url → List (Bool × String)
  unfolding is_wiki_url is_github_pages_url is_llms is_docs_rs is_sitemap_path is_git lower_contains
  site_returns raw_url u =
      (is_llms u, "llms")
      ∷ (lower_contains raw_url "pkg.go.dev", "pkggo")
      ∷ (is_docs_rs raw_url u, "docsrs")
      ∷ (is_sitemap_path u, "sitemap")
      ∷ (is_wiki_url raw_url, "wiki")
      ∷ (is_github_pages_url raw_url, "github_pages")
      ∷ (is_git raw_url u, "git")
      ∷ []

  -- The early returns on a URL that was parsed, in their order.
  abbrev pub returns : String → Url → List (Bool × String)
  unfolding is_wiki_url is_github_pages_url is_llms is_docs_rs is_sitemap_path is_git lower_contains
  returns raw_url u =
      (str_eq u.host "" && is_http u, "unknown")
        ∷ (str_eq u.scheme "git", "unknown")
        ∷ site_returns raw_url u
      ++ ((is_http u, "crawler") ∷ [])

  unfoldable pub detect_parsed : String → Url → String
  unfolding is_wiki_url is_github_pages_url is_llms is_docs_rs is_sitemap_path is_git lower_contains
  detect_parsed raw_url u = first_return (returns raw_url u)

  -- What is left where url.Parse fails.
  unfoldable pub detect_unparsed : String → String
  unfolding lower_starts_with
  detect_unparsed raw_url =
      if lower_starts_with raw_url "http://" || lower_starts_with raw_url "https://"
      then "crawler"
      else "unknown"

  unfoldable pub detect_trimmed : String → String
  unfolding detect_parsed detect_unparsed
  detect_trimmed raw_url =
      if str_eq raw_url ""
      then "unknown"
      else if starts_with raw_url "git@" || starts_with raw_url "git+ssh://"
      then "git"
      else elim (url_parse raw_url) [
        | none ↦ detect_unparsed raw_url
        | some u ↦ detect_parsed raw_url u
      ]

  unfoldable pub detect_strategy : String → String
  unfolding detect_trimmed trim_space
  detect_strategy raw_url = detect_trimmed (trim_space raw_url)
