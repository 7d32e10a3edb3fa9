-- ===== src/Strategies/Sitemap/Walk.antt =====
-- internal/strategies/sitemap.go: `collectURLsFromSitemap`, `processSitemapIndex` and `execute`. Indexes
-- may nest without an end, or in a circle; the fuel bounds the nesting, and an address below it gives
-- an error that the code does not have.
use repodocs_go.Base.{
  false, ◌+◌, ◌-◌, ◌==◌, ◌&&◌, not, ltb, [], ◌∷◌, ◌++◌, inl, inr, pos, negsuc, length,
  if◌then◌else◌, ◌⊎◌, ℕ, Bool, List, ℤ, Option, String, zero, suc, leb,
}
use repodocs_go.Domain.Errors.{Error, message, nil, is_nil}
use repodocs_go.Domain.Result.{
  StrategyResult, call, add_discovered, add_diagnostic, inc_failed, filter_zeroed, sitemap_shallow,
}
use package.text.Mathlib.Text.{◌==◌ as str_eq}
use repodocs_go.Strategies.Sitemap.{
  Sitemap, index, url_set, Source, Options, sitemap_of, filter_sitemap_urls, first_n, limited,
  sort_urls_by_last_mod,
}
use repodocs_go.Strategies.Sitemap.Plain.{SitemapUrl}

pub record Collected (W : Type 0) : Type 0 where
  pub urls : List SitemapUrl
  pub discovered : ℕ
  pub err : Error
  pub world : W

-- What the loop over an index changes. `handed` are the URLs of the calls of `processURLs` so far,
-- `totalProcessed` many.
pub record Progress (W : Type 0) : Type 0 where
  pub result : Option StrategyResult
  pub handed : List SitemapUrl
  pub total_discovered : ℕ
  pub world : W

-- `urls[:remaining]`, with the limit that is left
abbrev pub within_limit : ℤ → ℕ → List SitemapUrl → List SitemapUrl
within_limit (pos n) processed urls = if n == 0 then urls else first_n (n - processed) urls
within_limit (negsuc n) processed urls = urls

-- `opts.Limit > 0`, and `remaining <= 0`
abbrev pub limit_reached : ℤ → ℕ → Bool
limit_reached (pos n) processed = not (n == 0) && leb n processed
limit_reached (negsuc n) processed = false

-- How a turn of the loop of `processSitemapIndex` ends: at the next entry, at a `break`, or with a
-- `return`.
pub data Turn (W : Type 0) : Type 0 where
  next : Progress W → Turn W
  leave : Progress W → Turn W
  stop : Error → Progress W → Turn W

module _ {W : Type 0} (src : Source W) where
  module _ (rec : String → W → Collected W) where
    -- The loop over the entries of a nested index.
    unfoldable pub collect_each : List String → List SitemapUrl → ℕ → W → Collected W
    collect_each [] all discovered w = record {
      urls = all;
      discovered = discovered;
      err = nil;
      world = w;
    }
    collect_each (url ∷ rest) all discovered w =
        let c = rec url w in
        let more = if is_nil c.err then all ++ c.urls else all in
        let later = collect_each rest more (discovered + c.discovered) c.world in
        if is_nil (src.ctx_err w)
        then later
        else record { urls = []; discovered = discovered; err = src.ctx_err w; world = w }

  -- What it makes of a sitemap that was read, with the walk of the level below.
  unfoldable pub collect_from :
      (String → W → Collected W) → String → Error ⊎ Sitemap → W → Collected W
  unfolding collect_each filter_sitemap_urls
  collect_from rec filter_url (inl e) w = record { urls = []; discovered = 0; err = e; world = w }
  collect_from rec filter_url (inr (url_set urls)) w = record {
    urls = filter_sitemap_urls filter_url urls;
    discovered = length urls;
    err = nil;
    world = w;
  }
  collect_from rec filter_url (inr (index sitemaps)) w =
      let c = collect_each rec sitemaps [] 0 w in
      record c { urls = if is_nil c.err then filter_sitemap_urls filter_url c.urls else [] }

  unfoldable pub collect_urls_from_sitemap : ℕ → String → String → W → Collected W
  unfolding collect_from sitemap_of
  collect_urls_from_sitemap zero filter_url url w = record {
    urls = [];
    discovered = 0;
    err = message "nested too deeply";
    world = w;
  }
  collect_urls_from_sitemap (suc n) filter_url url w =
      let (response, w') = src.get url w in
      collect_from (collect_urls_from_sitemap n filter_url) filter_url (sitemap_of src url response)
        w'

  module _
      (process : List SitemapUrl → Option StrategyResult → W → Error × Option StrategyResult × W)
      (opts : Options) where
    -- `processURLs` on a batch
    process_batch : List SitemapUrl → Progress W → Error × Progress W
    process_batch urls p =
        let (err, result, w) = process urls p.result p.world in
        (err, record p { result = result; handed = p.handed ++ urls; world = w })

    -- A batch that was collected, where there is one.
    unfoldable pub take_batch : List SitemapUrl → Progress W → Turn W
    unfolding process_batch
    take_batch [] p = next p
    take_batch (u ∷ urls) p =
        let (err, p') = process_batch (within_limit opts.limit (length p.handed) (u ∷ urls)) p in
        if limit_reached opts.limit (length p.handed)
        then leave p
        else if is_nil err
        then next p'
        else stop err p'

    unfoldable pub index_turn : (String → W → Collected W) → String → Progress W → Turn W
    unfolding take_batch
    index_turn collect url p =
        let c = collect url p.world in
        let p' : Progress W = record p {
          result = call (add_discovered (pos c.discovered)) p.result;
          total_discovered = p.total_discovered + c.discovered;
          world = c.world;
        } in
        if not (is_nil (src.ctx_err p.world))
        then stop (src.ctx_err p.world) p
        else if is_nil c.err
        then take_batch c.urls p'
        else next p'

    unfoldable pub index_loop : (String → W → Collected W) → List String → Progress W → Turn W
    unfolding index_turn
    index_loop collect [] p = next p
    index_loop collect (url ∷ rest) p = elim (index_turn collect url p) [
      | next p' ↦ index_loop collect rest p'
      | leave p' ↦ leave p'
      | stop e p' ↦ stop e p'
    ]

    -- The diagnostic after the loop.
    abbrev index_end : Progress W → Progress W
    index_end p =
        if length p.handed == 0 && not (str_eq opts.filter_url "") && ltb 0 p.total_discovered
        then record p {
          result =
              call
                (add_diagnostic filter_zeroed "URL filter excluded every URL from the sitemap index"
                  "Use the filtered URL as the crawler entry point or adjust --filter")
                p.result;
        }
        else p

    unfoldable pub index_outcome : Turn W → Error × Progress W
    index_outcome (next p) = (nil, index_end p)
    index_outcome (leave p) = (nil, index_end p)
    index_outcome (stop e p) = (e, p)

    unfoldable pub process_sitemap_index : ℕ → List String → Progress W → Error × Progress W
    unfolding index_loop index_outcome collect_urls_from_sitemap
    process_sitemap_index n sitemaps p =
        index_outcome (index_loop (collect_urls_from_sitemap n opts.filter_url) sitemaps p)

    -- The diagnostics of a filter on `before` URLs that leaves `after`.
    filter_diagnostics : ℕ → ℕ → Option StrategyResult → Option StrategyResult
    filter_diagnostics before after r =
        let zeroed =
          if ltb 0 before && after == 0
          then call
              (add_diagnostic filter_zeroed "URL filter excluded every sitemap URL"
                "Use the filtered URL as the crawler entry point or adjust --filter")
              r
          else r in
        if ltb 0 before && ltb before 10
        then call
            (add_diagnostic sitemap_shallow "Sitemap contains very few URLs before filtering"
              "A shallow sitemap is a weak signal; crawler may be a better strategy")
            zeroed
        else zeroed

    -- `execute`, with what was read.
    unfoldable pub execute_on : ℕ → Error ⊎ Sitemap → Progress W → Error × Progress W
    unfolding process_sitemap_index process_batch filter_diagnostics sort_urls_by_last_mod
        filter_sitemap_urls
    execute_on n (inl e) p = (e, record p { result = call inc_failed p.result })
    execute_on n (inr (index sitemaps)) p = process_sitemap_index n sitemaps p
    execute_on n (inr (url_set urls)) p =
        let chosen = limited opts.limit (sort_urls_by_last_mod urls) in
        let kept = filter_sitemap_urls opts.filter_url chosen in
        let r =
          if str_eq opts.filter_url ""
          then p.result
          else filter_diagnostics (length chosen) (length kept) p.result in
        process_batch kept (record p { result = call (add_discovered (pos (length kept))) r })

    unfoldable pub execute : ℕ → String → Progress W → Error × Progress W
    unfolding execute_on sitemap_of
    execute n url p =
        let (response, w) = src.get url p.world in
        execute_on n (sitemap_of src url response) (record p { world = w })
