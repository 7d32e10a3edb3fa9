-- ===== src/Strategies/GithubPages/Filter/Tests.antt =====
-- What the filters keep of a few URLs, and their theorems there.
use package.text.Mathlib.Text.{◌==◌ as str_eq}
use repodocs_go.Base.{
  Bool, ◌≡◌, refl, ◌≤◌, Distinct, contains, false, ◌&&◌, String, List, [], ◌∷◌, Option, none, some,
  ℕ, suc, length, pos, if◌then◌else◌,
}
use repodocs_go.Strategies.GithubPages.Filter.{
  should_skip, Parsed, normalized_on, passes, filter_urls, selected_urls,
}
use repodocs_go.Strategies.GithubPages.Filter.Selects.{kept_forms, selected_urls-Selects}
use repodocs_go.Strategies.GithubPages.Filter.Skipped.{filter_urls-skipped}

abbrev parse : String → Option Parsed
parse u =
    if str_eq u "https://other.io/x"
    then some record { host = "other.io"; without_fragment = u }
    else if str_eq u "https://a.github.io/x#top"
    then some record { host = "a.github.io"; without_fragment = "https://a.github.io/x" }
    else if str_eq u "%"
    then none
    else some record { host = "a.github.io"; without_fragment = u }

abbrev found : List String
found =
    "https://a.github.io/x/" ∷ "https://other.io/x" ∷ "%" ∷ "https://a.github.io/x#top"
    ∷ "https://a.github.io/Logo.PNG" ∷ "https://a.github.io/y" ∷ []

abbrev no_excludes : String → Bool
no_excludes u = false

selected :
    selected_urls parse no_excludes "" (pos 0) "https://a.github.io" found
    ≡ "https://a.github.io/x" ∷ "https://a.github.io/y" ∷ []
unfolding selected_urls
selected = refl

selected_urls-Selects_example :
    Distinct (selected_urls parse no_excludes "" (pos 1) "https://a.github.io" found)
    × ((n : ℕ)
        → length (selected_urls parse no_excludes "" (pos (suc n)) "https://a.github.io" found)
          ≤ suc n)
    × ((v : String)
        → contains (selected_urls parse no_excludes "" (pos 0) "https://a.github.io" found) v ≡ (
            passes no_excludes "" v
            && contains (kept_forms (normalized_on parse "a.github.io") found) v))
selected_urls-Selects_example =
    selected_urls-Selects parse no_excludes "" "https://a.github.io"
      (record { host = "a.github.io"; without_fragment = "https://a.github.io" }) (pos 1) found refl

abbrev pdf_js : List String
pdf_js =
    "https://mozilla.github.io/pdf.js/getting_started" ∷ "https://mozilla.github.io/pdf.js/api" ∷ []

filter_urls-skipped_example : filter_urls no_excludes "" pdf_js ≡ []
unfolding should_skip
filter_urls-skipped_example =
    filter_urls-skipped no_excludes "" "https://mozilla.github.io/pdf.js" pdf_js refl
      (("/getting_started", refl), (("/api", refl), tt))
