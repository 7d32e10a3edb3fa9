-- ===== src/Utils/Url.antt =====
-- internal/utils/url.go: the tests on URLs and the name of the output directory. net/url, regexp and
-- path.Base are parameters, and texts are lower-cased as ASCII.
pub mod Base
pub mod OutputDir
mod Tests
use Prim.Native.String as Text
use package.text.Mathlib.Text.{◌==◌ as str_eq, starts_with}
use repodocs_go.Base.{
  Bool, true, false, not, ◌&&◌, ◌||◌, ◌==◌, leb, String, List, [], ◌∷◌, ◌++◌, Option, none, some, ℕ,
  same_codes, codes, lower_codes, lower_code, has_text, has_suffix, lower_contains, lower_ends_with,
  trim_suffix, if◌then◌else◌, begins_with, holds, ◌⊎◌, inl, inr,
}
use repodocs_go.Domain.Errors.{Error}

-- The parts of a parsed URL that are read here.
pub record Url : Type 0 where
  pub scheme : String
  pub host : String
  pub path : String

-- strings.ToLower(a) == strings.ToLower(b)
unfoldable pub same_lower : String → String → Bool
unfolding lower_code
same_lower a b = same_codes (lower_codes (codes a)) (lower_codes (codes b))

pub is_git_url : String → Bool
is_git_url url =
    starts_with url "git@"
    || has_suffix url ".git"
    || has_text url "github.com"
    || has_text url "gitlab.com"
    || has_text url "bitbucket.org"

pub is_sitemap_url : String → Bool
unfolding lower_ends_with lower_contains
is_sitemap_url url =
    lower_ends_with url "sitemap.xml"
    || lower_ends_with url "sitemap.xml.gz"
    || lower_contains url "sitemap"

pub is_llms_url : String → Bool
unfolding lower_ends_with
is_llms_url url = lower_ends_with url "/llms.txt" || lower_ends_with url "llms.txt"

-- The links that `ExtractLinks` and the browser crawl skip.
abbrev pub is_no_page : String → Bool
is_no_page link =
    starts_with link "#"
    || starts_with link "javascript:"
    || starts_with link "mailto:"
    || starts_with link "tel:"

-- `FilterLinks`; whether one of the patterns that compile matches is `excluded`.
abbrev pub filter_links : (String → Bool) → List String → List String
filter_links excluded [] = []
filter_links excluded (l ∷ links) =
    let rest = filter_links excluded links in if not (excluded l) then l ∷ rest else rest

-- The test on the paths, without their last slash.
abbrev pub path_under : String → String → Bool
path_under target base =
    str_eq base ""
    || str_eq base "/"
    || str_eq target base
    || starts_with target (Text.◌++◌ base "/")

abbrev pub url_under : Url → Url → Bool
url_under target base =
    same_lower target.host base.host
    && path_under (trim_suffix target.path "/") (trim_suffix base.path "/")

-- `ResolveURL`: a base that is neither a directory nor has a dot in its last element gets a slash.
-- `resolve` is url.Parse of both and ResolveReference, and `path_base` is path.Base.
abbrev directory_of : (String → String) → String → String
directory_of path_base base =
    if not (has_suffix base "/") && not (has_text (path_base base) ".")
    then Text.◌++◌ base "/"
    else base

unfoldable pub resolve_url :
    (String → String) → (String → String → Error ⊎ String) → String → String → Error ⊎ String
resolve_url path_base resolve base ref = resolve (directory_of path_base base) ref

module _ (parse : String → Option Url) where
  unfoldable pub get_domain : String → String
  get_domain url = elim (parse url) [ none ↦ "" | some u ↦ u.host ]

  -- strings.EqualFold, of ASCII texts
  unfoldable pub is_same_domain : String → String → Bool
  unfolding get_domain same_lower
  is_same_domain url1 url2 = same_lower (get_domain url1) (get_domain url2)

  unfoldable pub is_http_url : String → Bool
  is_http_url url = elim (parse url) [
    | none ↦ false
    | some u ↦ str_eq u.scheme "http" || str_eq u.scheme "https"
  ]

  -- IsAbs says whether there is a scheme.
  unfoldable pub is_absolute_url : String → Bool
  is_absolute_url url =
      if starts_with url "//"
      then true
      else elim (parse url) [ none ↦ false | some u ↦ not (str_eq u.scheme "") ]

  unfoldable pub has_base_url : String → String → Bool
  unfolding same_lower
  has_base_url target base = if str_eq base "" then true else elim (parse target) [
    | none ↦ false
    | some t ↦ elim (parse base) [ none ↦ false | some b ↦ url_under t b ]
  ]

  -- The loop of `ExtractLinks` over the submatches of its regular expression.
  unfoldable pub extract_links : (String → Error ⊎ String) → List String → List String
  unfolding is_absolute_url
  extract_links resolve [] = []
  extract_links resolve (l ∷ links) =
      let rest = extract_links resolve links in
      if is_no_page l
      then rest
      else if is_absolute_url l
      then l ∷ rest
      else elim (resolve l) [ inl e ↦ rest | inr link ↦ link ∷ rest ]
