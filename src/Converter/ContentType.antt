-- ===== src/Converter/ContentType.antt =====
-- internal/converter/content_type.go, on ASCII text.
use repodocs_go.Base.{
  ◌||◌, lower_contains, lower_codes, lower_code, codes, before, ends_with, ℕ, Bool, List, String,
}
use package.text.Mathlib.Text.{◌==◌ as str_eq}

-- The lower-cased URL, up to its query and its fragment.
abbrev path_codes : String → List ℕ
unfolding lower_code
path_codes url = before 35 (before 63 (lower_codes (codes url)))

unfoldable pub is_markdown_content : String → String → Bool
unfolding lower_contains lower_code
is_markdown_content content_type url =
    lower_contains content_type "text/markdown"
    || lower_contains content_type "text/x-markdown"
    || lower_contains content_type "application/markdown"
    || ends_with (path_codes url) (codes ".md")
    || ends_with (path_codes url) (codes ".mdx")
    || ends_with (path_codes url) (codes ".markdown")
    || ends_with (path_codes url) (codes ".mdown")

unfoldable pub is_plain_text_content : String → String → Bool
unfolding lower_contains lower_code
is_plain_text_content content_type url =
    lower_contains content_type "text/plain" || ends_with (path_codes url) (codes ".txt")

unfoldable pub is_html_content : String → Bool
unfolding lower_contains
is_html_content content_type =
    str_eq content_type ""
    || lower_contains content_type "text/html"
    || lower_contains content_type "application/xhtml"
