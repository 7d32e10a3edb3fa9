-- ===== src/Strategies/GithubPages/Probes.antt =====
-- internal/strategies/github_pages_discovery.go: the parsers of the discovery probes, and
-- `discoverViaHTTPProbes` of github_pages.go. What encoding/json, encoding/xml and net/url give are
-- parameters.
pub mod First
mod Tests
use Prim.Native.String as Text
use package.text.Mathlib.Text.{◌==◌ as str_eq, starts_with}
use repodocs_go.Base.{
  Bool, true, false, ◌&&◌, ◌||◌, ◌==◌, ltb, String, List, [], ◌∷◌, ◌++◌, Option, none, some, ℕ,
  zero, suc, ◌+◌, ◌⊎◌, inl, inr, contains, split, trim_suffix, trim_prefix, replace_code,
  if◌then◌else◌, map,
}
use repodocs_go.Strategies.Llms.{Patterns, urls_of, parse_llms_links}
use repodocs_go.Domain.Errors.{Error, message}

-- The decoded bodies: `loc` of each URL and of each sitemap, `location` of each document, `url` of each
-- entry, `permalink` and `url`, the entries with the values that are texts, and the keys of the
-- hash map in the order in which Go ranges over them.
pub record Decoders : Type 0 where
  pub patterns : Patterns
  pub xml_urlset : String → Error ⊎ List String
  pub xml_sitemap_index : String → Error ⊎ List String
  pub json_mkdocs : String → Error ⊎ List String
  pub json_docusaurus : String → Error ⊎ List String
  pub json_hugo : String → Error ⊎ List (String × String)
  pub json_entries : String → Error ⊎ List (List (String × String))
  pub json_hashmap : String → Error ⊎ List String
  -- url.Parse of the base and of the reference, then ResolveReference
  pub resolve_reference : String → String → Option String

abbrev pub Found : Type 0
Found = Error ⊎ List String

abbrev is_web : String → Bool
is_web href = starts_with href "http://" || starts_with href "https://"

-- strings.TrimSuffix(base, "/") + "/" + path
abbrev url_below : String → String → String
url_below base path = Text.◌++◌ (trim_suffix base "/") (Text.◌++◌ "/" path)

-- The error where there is nothing in the decoded body.
abbrev decoded_urls {ℓ} : {A : Type ℓ} → String → (List A → List String) → Error ⊎ List A → Found
decoded_urls empty read (inl e) = inl e
decoded_urls empty read (inr []) = inl (message empty)
decoded_urls empty read (inr (a ∷ rest)) = inr (read (a ∷ rest))

abbrev present : List String → List String
present [] = []
present (loc ∷ locs) = let rest = present locs in if str_eq loc "" then rest else loc ∷ rest

abbrev head_or_empty : List String → String
head_or_empty [] = ""
head_or_empty (s ∷ ss) = s

-- The loop of `ParseMkDocsIndex`; the keys of `seen` are the URLs so far.
abbrev mkdocs_urls : String → List String → List String → List String
mkdocs_urls base [] urls = urls
mkdocs_urls base (location ∷ locations) urls =
    let before_hash = head_or_empty (split 35 location) in
    let loc = if str_eq before_hash "" || str_eq before_hash "." then "" else before_hash in
    let full_url = url_below base (trim_prefix loc "/") in
    mkdocs_urls base locations (if contains urls full_url then urls else urls ++ full_url ∷ [])

abbrev url_fields : List String
url_fields = "url" ∷ "permalink" ∷ "href" ∷ "location" ∷ "path" ∷ []

abbrev value_of : String → List (String × String) → String
value_of field [] = ""
value_of field ((key, val) ∷ entry) = if str_eq key field then val else value_of field entry

-- The first of the fields that is there and is not empty.
abbrev first_value : List String → List (String × String) → String
first_value [] entry = ""
first_value (field ∷ fields) entry =
    let val = value_of field entry in
    let later = first_value fields entry in if str_eq val "" then later else val

-- "guide_getting-started.md" is the page guide/getting-started
abbrev vitepress_url : String → String → String
vitepress_url base path = url_below base (trim_suffix (replace_code 95 "/" path) ".md")

-- The parser of each probe.
pub data Parser : Type 0 where
  llms_txt sitemap_xml sitemap_index_xml mkdocs_index docusaurus_index : Parser
  hugo_index generic_search_index vitepress_hashmap : Parser

abbrev hugo_address : String × String → String
hugo_address (permalink, url) = if str_eq permalink "" then url else permalink

abbrev some_urls : String → Found → Found
some_urls empty (inl e) = inl e
some_urls empty (inr []) = inl (message empty)
some_urls empty (inr (u ∷ urls)) = inr (u ∷ urls)

module _ (d : Decoders) where
  unfoldable pub resolve_discovery_url : String → String → String
  resolve_discovery_url base href =
      if is_web href then href else elim (d.resolve_reference base href) [
        | some resolved ↦ resolved
        | none ↦ Text.◌++◌ base (Text.◌++◌ "/" (trim_prefix href "/"))
      ]

  -- Those that are there, resolved.
  resolved_present : String → List String → List String
  unfolding resolve_discovery_url
  resolved_present base [] = []
  resolved_present base (href ∷ hrefs) =
      let rest = resolved_present base hrefs in
      if str_eq href "" then rest else resolve_discovery_url base href ∷ rest

  parse_llms_txt : String → String → Found
  unfolding resolve_discovery_url parse_llms_links
  parse_llms_txt content base =
      decoded_urls "no links found in llms.txt" (map (resolve_discovery_url base))
        (inr (urls_of (parse_llms_links d.patterns content)))

  parse_sitemap_xml : String → Found
  parse_sitemap_xml content = decoded_urls "empty sitemap" present (d.xml_urlset content)

  parse_sitemap_index_xml : String → Found
  parse_sitemap_index_xml content =
      decoded_urls "empty sitemap index" (λ locs. locs) (d.xml_sitemap_index content)

  parse_mkdocs_index : String → String → Found
  parse_mkdocs_index content base =
      decoded_urls "empty MkDocs index" (λ locs. mkdocs_urls base locs []) (d.json_mkdocs content)

  parse_docusaurus_index : String → String → Found
  unfolding resolved_present
  parse_docusaurus_index content base =
      decoded_urls "empty Docusaurus index" (resolved_present base) (d.json_docusaurus content)

  parse_hugo_index : String → String → Found
  unfolding resolved_present
  parse_hugo_index content base =
      decoded_urls "empty Hugo index" (λ es. resolved_present base (map hugo_address es))
        (d.json_hugo content)

  parse_generic_search_index : String → String → Found
  unfolding resolved_present
  parse_generic_search_index content base = some_urls "no URLs found in search index" (
      decoded_urls "empty search index"
        (λ es. resolved_present base (map (first_value url_fields) es)) (d.json_entries content))

  parse_vitepress_hashmap : String → String → Found
  parse_vitepress_hashmap content base =
      decoded_urls "empty VitePress hashmap" (map (vitepress_url base)) (d.json_hashmap content)

  -- `p.Parser`
  unfoldable pub parse_with : Parser → String → String → Found
  unfolding parse_llms_txt parse_sitemap_xml parse_sitemap_index_xml parse_mkdocs_index
      parse_docusaurus_index parse_hugo_index parse_generic_search_index parse_vitepress_hashmap
  parse_with llms_txt content base = parse_llms_txt content base
  parse_with sitemap_xml content base = parse_sitemap_xml content
  parse_with sitemap_index_xml content base = parse_sitemap_index_xml content
  parse_with mkdocs_index content base = parse_mkdocs_index content base
  parse_with docusaurus_index content base = parse_docusaurus_index content base
  parse_with hugo_index content base = parse_hugo_index content base
  parse_with generic_search_index content base = parse_generic_search_index content base
  parse_with vitepress_hashmap content base = parse_vitepress_hashmap content base

-- `GetDiscoveryProbes`: path, parser and name, in the order of their priority.
pub record Probe : Type 0 where
  pub path : String
  pub parser : Parser
  pub name : String

abbrev pub get_discovery_probes : List Probe
get_discovery_probes =
    record { path = "/llms.txt"; parser = llms_txt; name = "llms.txt" }
    ∷ record { path = "/sitemap.xml"; parser = sitemap_xml; name = "sitemap.xml" }
    ∷ record { path = "/sitemap-0.xml"; parser = sitemap_xml; name = "sitemap-0.xml" }
    ∷ record { path = "/sitemap_index.xml"; parser = sitemap_index_xml; name = "sitemap_index.xml" }
    ∷ record { path = "/search/search_index.json"; parser = mkdocs_index; name = "mkdocs-search" }
    ∷ record { path = "/search-index.json"; parser = docusaurus_index; name = "docusaurus-search" }
    ∷ record { path = "/index.json"; parser = hugo_index; name = "hugo-index" }
    ∷ record { path = "/search.json"; parser = generic_search_index; name = "search.json" }
    ∷ record { path = "/hashmap.json"; parser = vitepress_hashmap; name = "vitepress" }
    ∷ []

-- `probeResult`
pub record ProbeResult : Type 0 where
  pub priority : ℕ
  pub name : String
  pub urls : List String

module _ (d : Decoders) (get : String → Error ⊎ (ℕ × String)) (base : String) where
  abbrev result_of : ℕ → String → Found → Option ProbeResult
  result_of priority name (inl e) = none
  result_of priority name (inr []) = none
  result_of priority name (inr (u ∷ urls)) =
      some record { priority = priority; name = name; urls = u ∷ urls }

  -- What the goroutine of a probe sends, if it does, on an answer: the status and the body.
  answer_sends : ℕ → Probe → Error ⊎ (ℕ × String) → Option ProbeResult
  unfolding parse_with
  answer_sends priority p (inl e) = none
  answer_sends priority p (inr (status, body)) =
      if status == 200 then result_of priority p.name (parse_with d p.parser body base) else none

  probe_sends : ℕ → Probe → Option ProbeResult
  unfolding answer_sends
  probe_sends priority p = answer_sends priority p (get (Text.◌++◌ (trim_suffix base "/") p.path))

  -- All that is sent, in the order of the priorities.
  unfoldable pub results_from : ℕ → List Probe → List ProbeResult
  unfolding probe_sends
  results_from priority [] = []
  results_from priority (p ∷ probes) =
      let rest = results_from (priority + 1) probes in
      elim (probe_sends priority p) [ none ↦ rest | some r ↦ r ∷ rest ]

-- The loop over the channel, `best` the pointer.
abbrev pub better : Option ProbeResult → ProbeResult → ProbeResult
better none r = r
better (some b) r = if ltb r.priority b.priority then r else b

abbrev pub best_of : Option ProbeResult → List ProbeResult → Option ProbeResult
best_of best [] = best
best_of best (r ∷ results) = best_of (some (better best r)) results

-- `discoverViaHTTPProbes`, of what arrives on the channel: the URLs and the name of the probe.
unfoldable pub discover_via_http_probes : List ProbeResult → Error ⊎ (List String × String)
discover_via_http_probes arrived = elim (best_of none arrived) [
  | none ↦ inl (message "all HTTP probes failed")
  | some best ↦ inr (best.urls, best.name)
]
