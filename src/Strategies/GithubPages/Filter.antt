-- ===== src/Strategies/GithubPages/Filter.antt =====
-- internal/strategies/github_pages_discovery.go and github_pages.go: which of the discovered URLs are
-- processed. url.Parse and regexp are parameters.
pub mod Selects
pub mod Skipped
mod Tests
use package.text.Mathlib.Text.{◌==◌ as str_eq, starts_with}
use repodocs_go.Base.{
  zero, ◌++◌, suc, Bool, true, false, ◌&&◌, ◌||◌, not, String, List, [], ◌∷◌, Option, none, some, ℕ,
  length, ltb, ℤ, pos, negsuc, contains, lower_contains, lower_codes, lower_code, codes, holds,
  trim_suffix, if◌then◌else◌,
}

-- What url.Parse gives: the host, and String() once the fragment is empty.
pub record Parsed : Type 0 where
  pub host : String
  pub without_fragment : String

abbrev pub skip_patterns : List String
skip_patterns =
    "/assets/" ∷ "/static/" ∷ "/_next/" ∷ "/_nuxt/" ∷ "/img/" ∷ "/images/" ∷ "/media/" ∷ "/css/"
    ∷ "/js/" ∷ "/fonts/" ∷ ".png" ∷ ".jpg" ∷ ".jpeg" ∷ ".gif" ∷ ".svg" ∷ ".ico" ∷ ".webp" ∷ ".css"
    ∷ ".js" ∷ ".woff" ∷ ".woff2" ∷ ".ttf" ∷ ".eot" ∷ ".pdf" ∷ ".zip" ∷ ".tar" ∷ ".gz" ∷ "/feed.xml"
    ∷ "/rss.xml" ∷ "/atom.xml" ∷ []

-- strings.Contains of a lower-cased text, for one of the patterns.
abbrev pub any_pattern : List ℕ → List String → Bool
any_pattern lower [] = false
any_pattern lower (p ∷ patterns) = holds lower (codes p) || any_pattern lower patterns

unfoldable pub should_skip : String → Bool
unfolding lower_code
should_skip u = any_pattern (lower_codes (codes u)) skip_patterns

-- One URL of the loop: the keys of `seen` are what was kept.
abbrev pub keep_new : List String → Option String → List String
keep_new kept none = kept
keep_new kept (some u) = if contains kept u then kept else kept ++ u ∷ []

module _ (parse : String → Option Parsed) where
  -- The URL as it is kept, where its host is the base's or none.
  unfoldable pub normalized_on : String → String → Option String
  normalized_on base_host u = elim (parse u) [
    | none ↦ none
    | some parsed ↦
        if not (str_eq parsed.host "") && not (str_eq parsed.host base_host)
        then none
        else some (trim_suffix parsed.without_fragment "/")
  ]

  unfoldable pub keep_on : String → List String → List String → List String
  unfolding normalized_on
  keep_on base_host [] kept = kept
  keep_on base_host (u ∷ urls) kept =
      keep_on base_host urls (keep_new kept (normalized_on base_host u))

  unfoldable pub filter_and_deduplicate_urls : List String → String → List String
  unfolding keep_on
  filter_and_deduplicate_urls urls base = elim (parse base) [
    | none ↦ urls
    | some parsed ↦ keep_on parsed.host urls []
  ]

-- `filterURLs`: the filter, the exclude patterns that compile, and the patterns above. `excluded` tells
-- whether a compiled exclude pattern matches.
unfoldable pub passes : (String → Bool) → String → String → Bool
unfolding should_skip
passes excluded filter_url u =
    (str_eq filter_url "" || starts_with u filter_url) && not (excluded u) && not (should_skip u)

unfoldable pub filter_urls : (String → Bool) → String → List String → List String
unfolding passes
filter_urls excluded filter_url [] = []
filter_urls excluded filter_url (u ∷ urls) =
    let rest = filter_urls excluded filter_url urls in
    if passes excluded filter_url u then u ∷ rest else rest

abbrev pub first_urls : ℕ → List String → List String
first_urls n [] = []
first_urls zero (u ∷ urls) = []
first_urls (suc n) (u ∷ urls) = u ∷ first_urls n urls

-- `urls[:opts.Limit]`, where there is a limit and it is shorter
abbrev pub limit_urls : ℤ → List String → List String
limit_urls (pos n) urls = if ltb 0 n && ltb n (length urls) then first_urls n urls else urls
limit_urls (negsuc n) urls = urls

unfoldable pub selected_urls :
    (String → Option Parsed) → (String → Bool) → String → ℤ → String → List String → List String
unfolding filter_and_deduplicate_urls filter_urls
selected_urls parse excluded filter_url limit base urls =
    limit_urls limit (filter_urls excluded filter_url (filter_and_deduplicate_urls parse urls base))
