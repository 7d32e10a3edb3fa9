-- ===== src/Strategies/GithubPages/Crawl.antt =====
-- internal/strategies/github_pages.go: `discoverViaBrowser`. No page is rendered twice, so that what its
-- rendering gives, the internal links or an error, is a function of the page.
pub mod Level
pub mod Linked
pub mod Bounds
pub mod Reachable
mod Tests
use repodocs_go.Base.{
  Bool, true, false, ◌&&◌, leb, ◌*◌, String, List, [], ◌∷◌, ◌++◌, ℕ, zero, suc, length, ℤ, pos,
  negsuc, ◌⊎◌, inl, inr, contains, positive_or, if◌then◌else◌,
}
use repodocs_go.Domain.Errors.{Error}

pub record Crawl : Type 0 where
  pub visited : List String
  pub discovered : List String
  -- `nextLevel`
  pub next : List String

-- How the loop over a level ends: by its return, or at the end of the level.
pub data LevelEnd : Type 0 where
  returned : List String → LevelEnd
  went_through : Crawl → LevelEnd

-- `if !visited[link]`
abbrev pub unvisited : List String → List String → List String
unvisited visited [] = []
unvisited visited (l ∷ links) =
    let rest = unvisited visited links in if contains visited l then rest else l ∷ rest

abbrev pub discover : String → Crawl → Crawl
discover url c = record c { visited = c.visited ++ url ∷ []; discovered = c.discovered ++ url ∷ [] }

-- The links of the page to the level below, none where it failed.
abbrev pub queue_links : Error ⊎ List String → Crawl → Crawl
queue_links (inl e) c = c
queue_links (inr links) c = record c { next = c.next ++ unvisited c.visited links }

-- `opts.Limit > 0 && len(discovered) >= opts.Limit*2`
abbrev pub has_enough : ℤ → ℕ → Bool
has_enough (pos zero) n = false
has_enough (pos (suc limit)) n = leb (suc limit * 2) n
has_enough (negsuc limit) n = false

module _ (links_of : String → Error ⊎ List String) (limit : ℤ) where
  unfoldable pub visit_level : List String → Crawl → LevelEnd
  visit_level [] c = went_through c
  visit_level (url ∷ to_visit) c = elim (contains c.visited url) [
    | true ↦ visit_level to_visit c
    | false ↦
        let c' = discover url c in
        elim (has_enough limit (length c'.discovered)) [
          | true ↦ returned c'.discovered
          | false ↦ visit_level to_visit (queue_links (links_of url) c')
        ]
  ]

  -- The levels that are left, from the URLs of the first of them.
  unfoldable pub crawl_levels : ℕ → List String → Crawl → List String
  unfolding visit_level
  crawl_levels zero to_visit c = c.discovered
  crawl_levels (suc depth) [] c = c.discovered
  crawl_levels (suc depth) (url ∷ to_visit) c =
      elim (visit_level (url ∷ to_visit) (record c { next = [] })) [
        | returned found ↦ found
        | went_through c' ↦ crawl_levels depth c'.next c'
      ]

abbrev pub no_pages : Crawl
no_pages = record { visited = []; discovered = []; next = [] }

abbrev pub depth_of : ℤ → ℕ
depth_of = positive_or 3

unfoldable pub discover_via_browser : (String → Error ⊎ List String) → ℤ → ℤ → String → List String
unfolding crawl_levels
discover_via_browser links_of limit max_depth base =
    crawl_levels links_of limit (depth_of max_depth) (base ∷ []) no_pages
