-- ===== src/App/Strategy.antt =====
-- internal/app/detector.go: the names of the strategies.
use repodocs_go.Base.{◌||◌, Bool, String}
use text.Mathlib.Text.{◌==◌ as str_eq}

unfoldable pub is_valid_strategy : String → Bool
is_valid_strategy s =
    str_eq s "llms"
    || str_eq s "pkggo"
    || str_eq s "docsrs"
    || str_eq s "sitemap"
    || str_eq s "wiki"
    || str_eq s "github_pages"
    || str_eq s "git"
    || str_eq s "crawler"
