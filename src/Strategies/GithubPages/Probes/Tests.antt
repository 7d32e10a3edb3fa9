-- ===== src/Strategies/GithubPages/Probes/Tests.antt =====
-- Two probes that answer, the later one first, and what the parsers read.
use mathlib.Core.List.{Permᴰ}
use package.text.Mathlib.Text.{◌==◌ as str_eq}
use repodocs_go.Base.{◌≡◌, refl, ℕ, String, List, [], ◌∷◌, some, none, inl, inr, ◌⊎◌, if◌then◌else◌}
use repodocs_go.Domain.Errors.{Error, message}
use repodocs_go.Strategies.Llms.{Patterns}
use repodocs_go.Strategies.GithubPages.Probes.{
  Decoders, ProbeResult, results_from, discover_via_http_probes, parse_with, mkdocs_index,
  generic_search_index, vitepress_hashmap,
}
use repodocs_go.Strategies.GithubPages.Probes.First.{discover_via_http_probes-first}

abbrev no_links : Patterns
no_links = record { link = λ line. none; bare_link = λ line. none }

abbrev decoders : Decoders
decoders = record {
  patterns = no_links;
  xml_urlset = λ body. inr ("https://a.io/x" ∷ "" ∷ []);
  xml_sitemap_index = λ body. inl (message "no index");
  json_mkdocs = λ body. inr ("guide/#install" ∷ "guide/#run" ∷ "." ∷ []);
  json_docusaurus = λ body. inr [];
  json_hugo = λ body. inr [];
  json_entries = λ body. inr ((("title", "x") ∷ ("href", "/x") ∷ []) ∷ []);
  json_hashmap = λ body. inr ("guide_start.md" ∷ []);
  resolve_reference = λ base href. some href;
}

parsed :
    (parse_with decoders mkdocs_index "" "https://a.io"
      ≡ inr ("https://a.io/guide/" ∷ "https://a.io/" ∷ []))
    × (parse_with decoders generic_search_index "" "https://a.io" ≡ inr ("/x" ∷ []))
    × (parse_with decoders vitepress_hashmap "" "https://a.io"
        ≡ inr ("https://a.io/guide/start" ∷ []))
unfolding parse_with
parsed = (refl, refl, refl)

abbrev get : String → Error ⊎ (ℕ × String)
get url =
    if str_eq url "https://a.io/sitemap.xml"
    then inr (200, "")
    else if str_eq url "https://a.io/hashmap.json"
    then inr (200, "")
    else inr (404, "")

abbrev late_first : List ProbeResult
late_first =
    record { priority = 8; name = "vitepress"; urls = "https://a.io/guide/start" ∷ [] }
    ∷ record { priority = 1; name = "sitemap.xml"; urls = "https://a.io/x" ∷ [] }
    ∷ []

discover_via_http_probes-first_example :
    discover_via_http_probes late_first ≡ inr ("https://a.io/x" ∷ [], "sitemap.xml")
unfolding results_from
discover_via_http_probes-first_example =
    discover_via_http_probes-first decoders get "https://a.io" late_first (Permᴰ.swap refl refl)
