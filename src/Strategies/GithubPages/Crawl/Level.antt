-- ===== src/Strategies/GithubPages/Crawl/Level.antt =====
-- internal/strategies/github_pages.go: one page of a level of `discoverViaBrowser`.
use repodocs_go.Base.{
  suc, ℕ, ◌≡◌, refl, ◌++◌, true, false, contains, String, List, [], ◌∷◌, length, ℤ, ◌⊎◌,
}
use repodocs_go.Domain.Errors.{Error}
use repodocs_go.Strategies.GithubPages.Crawl.{
  went_through, crawl_levels, Crawl, returned, discover, queue_links, has_enough, visit_level,
}

module _ (links_of : String → Error ⊎ List String) (limit : ℤ) (url : String) (us : List String)
    (c : Crawl) where
  pub visit_level-seen :
      contains c.visited url ≡ true
      → visit_level links_of limit (url ∷ us) c ≡ visit_level links_of limit us c
  unfolding visit_level
  visit_level-seen seen = rw (visit_level, seen) refl

  pub visit_level-full :
      contains c.visited url ≡ false
      → has_enough limit (length (c.discovered ++ url ∷ [])) ≡ true
      → visit_level links_of limit (url ∷ us) c ≡ returned (c.discovered ++ url ∷ [])
  unfolding visit_level
  visit_level-full fresh full = rw (visit_level, fresh, full) refl

  pub visit_level-room :
      contains c.visited url ≡ false
      → has_enough limit (length (c.discovered ++ url ∷ [])) ≡ false
      → visit_level links_of limit (url ∷ us) c
        ≡ visit_level links_of limit us (queue_links (links_of url) (discover url c))
  unfolding visit_level
  visit_level-room fresh room = rw (visit_level, fresh, room) refl

  pub crawl_levels-goes :
      (depth : ℕ) (c' : Crawl)
      → visit_level links_of limit (url ∷ us) (record c { next = [] }) ≡ went_through c'
      → crawl_levels links_of limit (suc depth) (url ∷ us) c
        ≡ crawl_levels links_of limit depth c'.next c'
  unfolding crawl_levels
  crawl_levels-goes depth c' goes = rw (crawl_levels, goes) refl
