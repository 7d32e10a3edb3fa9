-- ===== src/Utils/Url/Tests.antt =====
-- The tests on URLs and the names of directories, at some URLs.
use package.text.Mathlib.Text.{◌==◌ as str_eq}
use repodocs_go.Base.{
  ◌≡◌, refl, All, true, false, String, Option, none, some, codes, begins_with, if◌then◌else◌,
}
use repodocs_go.Utils.Url.{Url, has_base_url}
use repodocs_go.Utils.Url.OutputDir.{
  IsDirCode, generate_output_dir_from_url, generate_output_dir-IsDirCode,
}

abbrev parse : String → Option Url
parse u =
    if str_eq u "https://e.com/docs/api"
    then some record { scheme = "https"; host = "E.com"; path = "/docs/api" }
    else if str_eq u "https://e.com/docs"
    then some record { scheme = "https"; host = "e.com"; path = "/docs/" }
    else if str_eq u "https://e.com/documents"
    then some record { scheme = "https"; host = "e.com"; path = "/documents" }
    else if str_eq u "https://e.com"
    then some record { scheme = "https"; host = "e.com"; path = "" }
    else none

based :
    (has_base_url parse "https://e.com/docs/api" "https://e.com/docs" ≡ true)
    × (has_base_url parse "https://e.com/documents" "https://e.com/docs" ≡ false)
unfolding has_base_url
based = (refl, refl)

named :
    (generate_output_dir_from_url (some ("github.com", "/QwenLM/qwen-code"))
      ≡ codes "docs_qwen-code")
    × (generate_output_dir_from_url (some ("docs.crawl4ai.com", "/sitemap.xml"))
        ≡ codes "docs_docscrawl4aicom")
    × (generate_output_dir_from_url (some ("pkg.go.dev", "/github.com/user/package"))
        ≡ codes "docs_package")
    × (generate_output_dir_from_url (some ("docs.rs", "/ratatui/latest/ratatui/"))
        ≡ codes "docs_ratatui")
    × (generate_output_dir_from_url (some ("www.e.com:80", "")) ≡ codes "docs_ecom")
    × (generate_output_dir_from_url (some ("github.com", "/a/...")) ≡ codes "docs_")
unfolding generate_output_dir_from_url
named = (refl, refl, refl, refl, refl, refl)

generate_output_dir-IsDirCode_example :
    let dir = generate_output_dir_from_url (some ("www.E.com", "/")) in
    All IsDirCode dir × (begins_with dir (codes "docs") ≡ true)
generate_output_dir-IsDirCode_example = generate_output_dir-IsDirCode (some ("www.E.com", "/"))
