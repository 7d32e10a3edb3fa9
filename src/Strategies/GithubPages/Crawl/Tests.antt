-- ===== src/Strategies/GithubPages/Crawl/Tests.antt =====
-- Runs of the browser crawl on a small site.
use repodocs_go.Base.{
  ◌≡◌, refl, ◌↔◌, Distinct, contains, String, List, [], ◌∷◌, pos, negsuc, ◌⊎◌, inl, inr, true,
  if◌then◌else◌,
}
use repodocs_go.Domain.Errors.{message, Error}
use repodocs_go.Strategies.GithubPages.Crawl.{visit_level, crawl_levels, discover_via_browser}
use repodocs_go.Strategies.GithubPages.Crawl.Bounds.{WithinLimit, discover_via_browser-Fits}
use repodocs_go.Strategies.GithubPages.Crawl.Reachable.{discover_via_browser-reach}
use repodocs_go.Strategies.GithubPages.Crawl.Linked.{Fewer}
use package.text.Mathlib.Text.{◌==◌ as str_eq}

-- The home page links to "a" and "b", "a" to itself and "c", "c" to "d", and "b" fails.
abbrev site : String → Error ⊎ List String
site page =
    if str_eq page "home"
    then inr ("a" ∷ "b" ∷ [])
    else if str_eq page "a"
    then inr ("a" ∷ "c" ∷ [])
    else if str_eq page "c"
    then inr ("home" ∷ "d" ∷ [])
    else inl (message "timeout")

crawled :
    (discover_via_browser site (pos 0) (pos 0) "home" ≡ "home" ∷ "a" ∷ "b" ∷ "c" ∷ [])
    × (discover_via_browser site (pos 1) (pos 9) "home" ≡ "home" ∷ "a" ∷ [])
unfolding discover_via_browser crawl_levels visit_level
crawled = (refl, refl)

discover_via_browser-reach_example :
    (contains (discover_via_browser site (pos 0) (negsuc 0) "home") "c" ≡ true)
    ↔ Fewer site "home" 3 "c"
discover_via_browser-reach_example =
    discover_via_browser-reach site (pos 0) (negsuc 0) "home" refl "c"

discover_via_browser-Fits_example :
    Distinct (discover_via_browser site (pos 1) (pos 9) "home")
    × WithinLimit (pos 1) (discover_via_browser site (pos 1) (pos 9) "home")
discover_via_browser-Fits_example = discover_via_browser-Fits site (pos 1) (pos 9) "home"
