-- ===== src/Strategies/GithubPages/Filter/Skipped.antt =====
-- internal/strategies/github_pages_discovery.go: a pattern that the base's own address holds.
use package.text.Mathlib.TextBridge.{IsPrefix}
use repodocs_go.Base.{
  codes-append, ◌≡◌, refl, ap, arith, All, Bool, true, String, List, [], ◌∷◌, ◌++◌, ℕ, codes,
  lower_code, lower_codes, holds, begins_with, subst,
}
use repodocs_go.Strategies.GithubPages.Filter.{
  skip_patterns, any_pattern, should_skip, passes, filter_urls,
}

begins-append : (cs es ds : List ℕ) → begins_with cs ds ≡ true → begins_with (cs ++ es) ds ≡ true
begins-append cs es [] h = ground arith
begins-append [] es (d ∷ ds) h = absurd (ground (arith, h))
begins-append (c ∷ cs) es (d ∷ ds) h = ground (arith, h, begins-append cs es ds)

starts-holds : (es : List ℕ) → holds es [] ≡ true
starts-holds [] = refl
starts-holds (e ∷ es) = refl

holds-append : (cs es ds : List ℕ) → holds cs ds ≡ true → holds (cs ++ es) ds ≡ true
holds-append [] es [] h = starts-holds es
holds-append [] es (d ∷ ds) h = absurd (ground (arith, h))
holds-append (c ∷ cs) es ds h =
    ground (arith, h, begins-append (c ∷ cs) es ds, holds-append cs es ds)

lower-append : (cs es : List ℕ) → lower_codes (cs ++ es) ≡ lower_codes cs ++ lower_codes es
unfolding lower_code
lower-append [] es = refl
lower-append (c ∷ cs) es = ap (λ l. lower_code c ∷ l) (lower-append cs es)

any_pattern-append :
    (cs es : List ℕ) (patterns : List String)
    → any_pattern cs patterns ≡ true
    → any_pattern (cs ++ es) patterns ≡ true
any_pattern-append cs es [] h = h
any_pattern-append cs es (p ∷ patterns) h =
    ground (arith, h, holds-append cs es (codes p), any_pattern-append cs es patterns)

-- A URL under one that is skipped is skipped.
should_skip-under :
    (base u : String) → IsPrefix base u → should_skip base ≡ true → should_skip u ≡ true
unfolding should_skip lower_code
should_skip-under base u (rest, e) h =
    subst (λ w. should_skip w ≡ true) e
      (rw (codes-append base rest, lower-append (codes base) (codes rest))
        (any_pattern-append (lower_codes (codes base)) (lower_codes (codes rest)) skip_patterns h))

-- Where one of the patterns stands in an address, as `.js` does in that of the project pdf.js, nothing
-- below it passes, whatever the options: a site at such an address is left without a page.
pub filter_urls-skipped :
    (excluded : String → Bool) (filter_url base : String) (urls : List String)
    → should_skip base ≡ true
    → All (IsPrefix base) urls
    → filter_urls excluded filter_url urls ≡ []
unfolding filter_urls passes
filter_urls-skipped excluded filter_url base [] skip under = refl
filter_urls-skipped excluded filter_url base (u ∷ urls) skip (h, hs) = ground (
  arith,
  should_skip-under base u h skip,
  filter_urls-skipped excluded filter_url base urls skip hs,
)
