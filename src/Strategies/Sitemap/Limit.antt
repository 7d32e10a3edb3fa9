-- ===== src/Strategies/Sitemap/Limit.antt =====
-- internal/strategies/sitemap.go: the limit, whatever is fetched and whenever the context ends.
use repodocs_go.Base.{
  ◌≡◌, ◌≢◌, ◌≤◌, ◌-◌, Bool-cases, List, [], ◌∷◌, ℕ, zero, suc, pos, String, ◌⊎◌, inl, inr, arith,
  length, length-append, Option,
}
use repodocs_go.Domain.Errors.{Error, is_nil}
use repodocs_go.Domain.Result.{StrategyResult}
use repodocs_go.Strategies.Sitemap.{
  Sitemap, index, url_set, Source, Options, filter_sitemap_urls, with_prefix, first_n,
  sort_urls_by_last_mod,
}
use repodocs_go.Strategies.Sitemap.Plain.{SitemapUrl}
use repodocs_go.Strategies.Sitemap.Walk.{
  Collected, Progress, Turn, next, leave, stop, collect_urls_from_sitemap, take_batch, index_turn,
  index_loop, index_outcome, execute, execute_on,
}

length-first_n : (n : ℕ) (us : List SitemapUrl) → length (first_n n us) ≤ n
length-first_n n [] = omega arith
length-first_n zero (u ∷ us) = omega arith
length-first_n (suc n) (u ∷ us) = omega (arith, length-first_n n us)

length-with_prefix : (f : String) (us : List SitemapUrl) → length (with_prefix f us) ≤ length us
length-with_prefix f [] = omega arith
length-with_prefix f (u ∷ us) = ground (arith, length-with_prefix f us)

length-filter : (f : String) (us : List SitemapUrl) → length (filter_sitemap_urls f us) ≤ length us
unfolding filter_sitemap_urls
length-filter f us = ground (arith, length-with_prefix f us)

module _ {W : Type 0} (src : Source W)
    (process : List SitemapUrl → Option StrategyResult → W → Error × Option StrategyResult × W)
    (f : String) (l : ℕ) (some_limit : l ≢ 0) where
  abbrev opts : Options
  opts = record { limit = pos l; filter_url = f }

  abbrev IsWithin : Progress W → Type 0
  IsWithin p = length p.handed ≤ l

  abbrev IsTurnWithin : Turn W → Type 0
  IsTurnWithin (next p) = IsWithin p
  IsTurnWithin (leave p) = IsWithin p
  IsTurnWithin (stop e p) = IsWithin p

  take_batch-IsTurnWithin :
      (us : List SitemapUrl) (p : Progress W)
      → IsWithin p
      → IsTurnWithin (take_batch src process opts us p)
  unfolding take_batch
  take_batch-IsTurnWithin [] p h = h
  take_batch-IsTurnWithin (u ∷ us) p h =
      let added = length-first_n (l - length p.handed) (u ∷ us) in
      let both = length-append p.handed (first_n (l - length p.handed) (u ∷ us)) in
      ground (arith, added, both)

  index_turn-IsTurnWithin :
      (collect : String → W → Collected W) (url : String) (p : Progress W)
      → IsWithin p
      → IsTurnWithin (index_turn src process opts collect url p)
  unfolding index_turn
  index_turn-IsTurnWithin collect url p h = elim (Bool-cases (is_nil (src.ctx_err p.world))) [
    | inr ended ↦ rw ended h
    | inl live ↦ elim (Bool-cases (is_nil (collect url p.world).err)) [
      | inr failed ↦ rw (live, failed) h
      | inl fine ↦ rw (live, fine) (take_batch-IsTurnWithin _ _ h)
    ]
  ]

  turn-IsTurnWithin :
      (rest : Progress W → Turn W) (t : Turn W)
      → ((p : Progress W) → IsWithin p → IsTurnWithin (rest p))
      → IsTurnWithin t
      → IsTurnWithin (elim t [ next p ↦ rest p | leave p ↦ leave p | stop e p ↦ stop e p ])
  turn-IsTurnWithin rest (next p) later h = later p h
  turn-IsTurnWithin rest (leave p) later h = h
  turn-IsTurnWithin rest (stop e p) later h = h

  index_loop-IsTurnWithin :
      (collect : String → W → Collected W) (urls : List String) (p : Progress W)
      → IsWithin p
      → IsTurnWithin (index_loop src process opts collect urls p)
  unfolding index_loop
  index_loop-IsTurnWithin collect [] p h = h
  index_loop-IsTurnWithin collect (url ∷ rest) p h =
      turn-IsTurnWithin (index_loop src process opts collect rest)
        (index_turn src process opts collect url p) (index_loop-IsTurnWithin collect rest)
        (index_turn-IsTurnWithin collect url p h)

  outcome-IsWithin : (t : Turn W) → IsTurnWithin t → IsWithin (index_outcome src process opts t).1
  unfolding index_outcome
  outcome-IsWithin (next p) h = ground (arith, h)
  outcome-IsWithin (leave p) h = ground (arith, h)
  outcome-IsWithin (stop e p) h = h

  execute_on-IsWithin :
      (n : ℕ) (read : Error ⊎ Sitemap) (p : Progress W)
      → p.handed ≡ []
      → IsWithin (execute_on src process opts n read p).1
  unfolding execute_on
  execute_on-IsWithin n (inl e) p fresh_ = rw fresh_ (omega arith)
  execute_on-IsWithin n (inr (index sitemaps)) p fresh_ = outcome-IsWithin _ (
      index_loop-IsTurnWithin (collect_urls_from_sitemap src n f) sitemaps p
        (rw fresh_ (omega arith)))
  execute_on-IsWithin n (inr (url_set urls)) p fresh_ =
      let kept = length-first_n l (sort_urls_by_last_mod urls) in
      let fewer = length-filter f (first_n l (sort_urls_by_last_mod urls)) in
      ground (arith, kept, fewer)

  -- A limit that is set holds for all calls of `processURLs` together: `execute` hands no more URLs to
  -- them, whatever the sitemaps say, however they nest and whichever of them fail, also where the
  -- context ends or a call of `processURLs` fails on the way.
  pub execute-within_limit :
      (n : ℕ) (url : String) (p : Progress W)
      → p.handed ≡ []
      → length (execute src process opts n url p).1.handed ≤ l
  unfolding execute
  execute-within_limit n url p fresh_ =
      execute_on-IsWithin n _ (record p { world = (src.get url p.world).1 }) fresh_
