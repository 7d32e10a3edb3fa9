-- ===== src/App/Detect/Tests.antt =====
-- internal/app/detector.go: addresses and the strategies for them.
use package.text.Mathlib.Text.{◌==◌ as str_eq}
use repodocs_go.Base.{◌≡◌, refl, none, some, if◌then◌else◌, String, Option}
use repodocs_go.App.Detect.{Url, detect_strategy}

abbrev url_at : String → String → String → Url
url_at scheme host path = record { scheme = scheme; host = host; path = path }

abbrev parse : String → Option Url
parse s =
    if str_eq s "https://github.com/a/b/wiki"
    then some (url_at "https" "github.com" "/a/b/wiki")
    else if str_eq s "https://docs.rs/serde/src/serde.rs"
    then some (url_at "https" "docs.rs" "/serde/src/serde.rs")
    else if str_eq s "http://a.org/LLMS.TXT?v=1"
    then some (url_at "http" "a.org" "/LLMS.TXT")
    else none

llms_test : detect_strategy parse " http://a.org/LLMS.TXT?v=1\n" ≡ "llms"
unfolding detect_strategy
llms_test = refl

-- A source view on docs.rs is left to the crawler.
source_view_test : detect_strategy parse "https://docs.rs/serde/src/serde.rs" ≡ "crawler"
unfolding detect_strategy
source_view_test = refl
