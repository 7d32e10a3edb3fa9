-- ===== src/Strategies/Sitemap/Plain.antt =====
-- internal/strategies/sitemap.go: sitemaps that are plain text, one URL a line.
use repodocs_go.Base.{
  split, trim_space, ◌&&◌, ◌||◌, not, [], ◌∷◌, false, if◌then◌else◌, ℕ, Bool, List, String,
}
use package.text.Mathlib.Text.{◌==◌ as str_eq, starts_with}

pub record SitemapUrl : Type 0 where
  pub loc : String
  pub last_mod : ℕ

-- strings.Split(s, "\n")
abbrev pub lines : String → List String
lines = split 10

abbrev pub is_skipped : String → Bool
is_skipped line = str_eq line "" || starts_with line "#"

abbrev pub is_web : String → Bool
is_web line = starts_with line "http://" || starts_with line "https://"

-- The loop of `parseTextSitemap`.
unfoldable pub text_urls : List String → List SitemapUrl
unfolding trim_space
text_urls [] = []
text_urls (l ∷ ls) =
    let line = trim_space l in
    let rest = text_urls ls in
    if not (is_skipped line) && is_web line
    then record { loc = line; last_mod = 0 } ∷ rest
    else rest

-- The loop of `looksLikeTextSitemap`.
unfoldable pub looks_like_text_sitemap : List String → Bool
unfolding trim_space
looks_like_text_sitemap [] = false
looks_like_text_sitemap (l ∷ ls) =
    let line = trim_space l in
    let rest = looks_like_text_sitemap ls in if is_skipped line then rest else is_web line
