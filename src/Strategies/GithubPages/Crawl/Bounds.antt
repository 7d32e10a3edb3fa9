-- ===== src/Strategies/GithubPages/Crawl/Bounds.antt =====
-- internal/strategies/github_pages.go: `discoverViaBrowser` lists no URL twice, and stays within its limit.
use repodocs_go.Strategies.GithubPages.Crawl.Level.{
  visit_level-room, visit_level-full, visit_level-seen,
}
use repodocs_go.Base.{
  false, ap, ◌≡◌, refl, sym, subst, ◌≤◌, ◌<◌, ◌*◌, length-append, arith, Distinct, Distinct-snoc,
  contains, String, List, [], ◌∷◌, ◌++◌, ℕ, zero, suc, length, ℤ, pos, negsuc, ◌⊎◌, inl, inr,
  Bool-cases,
}
use repodocs_go.Domain.Errors.{Error}
use repodocs_go.Strategies.GithubPages.Crawl.{
  Crawl, LevelEnd, returned, went_through, discover, queue_links, has_enough, visit_level,
  crawl_levels, no_pages, depth_of, discover_via_browser,
}

-- Twice the limit, where there is one.
abbrev pub WithinLimit : ℤ → List String → Type 0
WithinLimit (pos zero) us = Unit
WithinLimit (pos (suc limit)) us = length us ≤ suc limit * 2
WithinLimit (negsuc limit) us = Unit

abbrev BelowLimit : ℤ → List String → Type 0
BelowLimit (pos zero) us = Unit
BelowLimit (pos (suc limit)) us = length us < suc limit * 2
BelowLimit (negsuc limit) us = Unit

below-WithinLimit : (limit : ℤ) (us : List String) → BelowLimit limit us → WithinLimit limit us
below-WithinLimit (pos zero) us h = tt
below-WithinLimit (pos (suc limit)) us h = omega (arith, h)
below-WithinLimit (negsuc limit) us h = tt

snoc-WithinLimit :
    (limit : ℤ) (us : List String) (u : String)
    → BelowLimit limit us
    → WithinLimit limit (us ++ u ∷ [])
snoc-WithinLimit (pos zero) us u h = tt
snoc-WithinLimit (pos (suc limit)) us u h = omega (arith, h, length-append us (u ∷ []))
snoc-WithinLimit (negsuc limit) us u h = tt

not-enough :
    (limit : ℤ) (us : List String) → has_enough limit (length us) ≡ false → BelowLimit limit us
not-enough (pos zero) us h = tt
not-enough (pos (suc limit)) us h = ground (arith, h)
not-enough (negsuc limit) us h = tt

none-BelowLimit : (limit : ℤ) → BelowLimit limit []
none-BelowLimit (pos zero) = tt
none-BelowLimit (pos (suc limit)) = omega arith
none-BelowLimit (negsuc limit) = tt

module _ (links_of : String → Error ⊎ List String) (limit : ℤ) where
  -- Between two pages. The map and the list have the same URLs.
  record IsValid (c : Crawl) : Type 0 where
    same : c.visited ≡ c.discovered
    once : Distinct c.discovered
    below : BelowLimit limit c.discovered

  abbrev Fits : List String → Type 0
  Fits us = Distinct us × WithinLimit limit us

  abbrev Ends : LevelEnd → Type 0
  Ends (returned found) = Fits found
  Ends (went_through c) = IsValid c

  discover-Fits :
      (url : String) (c : Crawl)
      → IsValid c
      → contains c.visited url ≡ false
      → Fits (c.discovered ++ url ∷ [])
  discover-Fits url c v fresh = (
    Distinct-snoc c.discovered url v.once (subst (λ us. contains us url ≡ false) v.same fresh),
    snoc-WithinLimit limit c.discovered url v.below,
  )

  queue-IsValid :
      (answer : Error ⊎ List String) (c : Crawl) → IsValid c → IsValid (queue_links answer c)
  queue-IsValid (inl e) c v = v
  queue-IsValid (inr links) c v = record { same = v.same; once = v.once; below = v.below }

  visit_level-Ends :
      (us : List String) (c : Crawl) → IsValid c → Ends (visit_level links_of limit us c)
  unfolding visit_level
  visit_level-Ends [] c v = v
  visit_level-Ends (url ∷ us) c v = elim (Bool-cases (contains c.visited url)) [
    | inl seen ↦
        subst Ends (sym (visit_level-seen links_of limit url us c seen)) (visit_level-Ends us c v)
    | inr fresh ↦
        let (once, within) = discover-Fits url c v fresh in
        elim (Bool-cases (has_enough limit (length (c.discovered ++ url ∷ [])))) [
          | inl full ↦
              subst Ends (sym (visit_level-full links_of limit url us c fresh full)) (once, within)
          | inr room ↦
              let below = not-enough limit (c.discovered ++ url ∷ []) room in
              let v' : IsValid (discover url c) = record {
                same = ap (λ l. l ++ url ∷ []) v.same;
                once = once;
                below = below;
              } in
              subst Ends (sym (visit_level-room links_of limit url us c fresh room)) (
                visit_level-Ends us (queue_links (links_of url) (discover url c))
                  (queue-IsValid (links_of url) (discover url c) v'))
        ]
  ]

  end-Fits :
      (depth : ℕ) (e : LevelEnd)
      → ((us : List String) (c : Crawl) → IsValid c → Fits (crawl_levels links_of limit depth us c))
      → Ends e
      → Fits (elim e [
        | returned found ↦ found
        | went_through c ↦ crawl_levels links_of limit depth c.next c
      ])
  end-Fits depth (returned found) more h = h
  end-Fits depth (went_through c) more v = more c.next c v

  crawl_levels-Fits :
      (depth : ℕ) (us : List String) (c : Crawl)
      → IsValid c
      → Fits (crawl_levels links_of limit depth us c)
  unfolding crawl_levels
  crawl_levels-Fits zero us c v = (v.once, below-WithinLimit limit c.discovered v.below)
  crawl_levels-Fits (suc depth) [] c v = (v.once, below-WithinLimit limit c.discovered v.below)
  crawl_levels-Fits (suc depth) (u ∷ us) c v =
      end-Fits depth (visit_level links_of limit (u ∷ us) (record c { next = [] }))
        (crawl_levels-Fits depth)
        (visit_level-Ends (u ∷ us) (record c { next = [] })
          (record { same = v.same; once = v.once; below = v.below }))

-- The browser crawl discovers no URL twice, and of a limit that is set at most twice as many, whatever
-- the pages link to.
pub discover_via_browser-Fits :
    (links_of : String → Error ⊎ List String) (limit max_depth : ℤ) (base : String)
    → Distinct (discover_via_browser links_of limit max_depth base)
      × WithinLimit limit (discover_via_browser links_of limit max_depth base)
unfolding discover_via_browser
discover_via_browser-Fits links_of limit max_depth base =
    crawl_levels-Fits links_of limit (depth_of max_depth) (base ∷ []) no_pages
      (record { same = refl; once = tt; below = none-BelowLimit limit })
