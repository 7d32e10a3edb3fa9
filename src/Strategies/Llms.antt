-- ===== src/Strategies/Llms.antt =====
-- internal/strategies/llms.go: the links of an llms.txt, and which of them are processed. The two regular
-- expressions are parameters, which give the submatches of a line, and so is net/url. Texts are ASCII where they are cut.
pub mod Links
pub mod Pages
mod Tests
use Prim.Native.String as Text
use Prim.Native.String.{len, slice, find}
use package.text.Mathlib.Text.{◌==◌ as str_eq, starts_with}
use repodocs_go.Base.{
  Bool, true, false, not, ◌&&◌, ◌||◌, String, List, [], ◌∷◌, ◌++◌, Option, none, some, ℕ, ltb,
  contains, split, has_text, trim_space, if◌then◌else◌, ◌⊎◌, inl, inr, map, suc, zero, ℤ, pos,
  negsuc, length,
}
use repodocs_go.Domain.Errors.{Error}
use repodocs_go.Utils.Url.{Url, has_base_url}

-- `domain.LLMSLink`
pub record LlmsLink : Type 0 where
  pub title : String
  pub url : String
  pub description : String

pub record Patterns : Type 0 where
  -- linkRegex: title, URL and description, and bareLinkRegex: URL and description
  pub link : String → Option (String × String × String)
  pub bare_link : String → Option (String × String)

pub truncate_title : String → String
truncate_title desc =
    if ltb 0 (find desc ".") && ltb (find desc ".") (len desc) && ltb (find desc ".") 80
    then slice desc 0 (find desc ".")
    else if ltb 80 (len desc)
    then Text.◌++◌ (slice desc 0 77) "..."
    else desc

abbrev pub urls_of : List LlmsLink → List String
urls_of [] = []
urls_of (l ∷ links) = l.url ∷ urls_of links

-- `append`, unless the URL is empty, an anchor or there already: the keys of `seen` are the URLs so far.
pub add_link : LlmsLink → List LlmsLink → List LlmsLink
add_link l links =
    if str_eq l.url "" || starts_with l.url "#" || contains (urls_of links) l.url
    then links
    else links ++ l ∷ []

abbrev add_found_link : Option LlmsLink → List LlmsLink → List LlmsLink
add_found_link none links = links
add_found_link (some l) links = add_link l links

module _ (re : Patterns) where
  -- What a line that is not empty holds.
  link_of : String → Option LlmsLink
  unfolding truncate_title trim_space
  link_of line = elim (re.link line) [
    | some (title, url, desc) ↦
        some
          record { title = trim_space title; url = trim_space url; description = trim_space desc }
    | none ↦ elim (re.bare_link line) [
      | some (url, desc) ↦
          let description = trim_space desc in
          some record {
            title = if str_eq description "" then "" else truncate_title description;
            url = trim_space url;
            description = description;
          }
      | none ↦ none
    ]
  ]

  unfoldable pub links_from : List String → List LlmsLink → List LlmsLink
  unfolding link_of add_link trim_space
  links_from [] links = links
  links_from (l ∷ lines) links =
      let line = trim_space l in
      links_from lines (if str_eq line "" then links else add_found_link (link_of line) links)

  unfoldable pub parse_llms_links : String → List LlmsLink
  unfolding links_from
  parse_llms_links content = links_from (split 10 content) []

abbrev pub is_web : String → Bool
is_web url = starts_with url "http://" || starts_with url "https://"

-- The loop that resolves the relative URLs; one that cannot be resolved stays as it is.
unfoldable pub resolved : (String → Error ⊎ String) → LlmsLink → LlmsLink
resolved resolve l =
    if is_web l.url
    then l
    else elim (resolve l.url) [ inl e ↦ l | inr url ↦ record l { url = url } ]

-- One link of `filterLLMSLinks`
unfoldable pub link_passes : (String → Option Url) → String → LlmsLink → Bool
unfolding has_base_url
link_passes parse filter_url l =
    has_base_url parse l.url filter_url || (starts_with filter_url "/" && has_text l.url filter_url)

abbrev passing_links : (LlmsLink → Bool) → List LlmsLink → List LlmsLink
passing_links passes [] = []
passing_links passes (l ∷ links) =
    let rest = passing_links passes links in if passes l then l ∷ rest else rest

unfoldable pub filter_llms_links : (String → Option Url) → String → List LlmsLink → List LlmsLink
unfolding link_passes
filter_llms_links parse filter_url links =
    if str_eq filter_url "" then links else passing_links (link_passes parse filter_url) links

abbrev pub first_links : ℕ → List LlmsLink → List LlmsLink
first_links n [] = []
first_links zero (l ∷ links) = []
first_links (suc n) (l ∷ links) = l ∷ first_links n links

-- `links[:opts.Limit]`, where there is a limit and it is shorter
abbrev pub limit_links : ℤ → List LlmsLink → List LlmsLink
limit_links (pos n) links = if ltb 0 n && ltb n (length links) then first_links n links else links
limit_links (negsuc n) links = links
