-- ===== src/Strategies/Sitemap/Listing.antt =====
-- internal/strategies/sitemap.go: the URLs of a sitemap index, against the tree of sitemaps under it.
use repodocs_go.Base.{
  subst, ◌≡◌, refl, sym, ap, ◌∙◌, ◌≤◌, ◌+◌, Bool-cases, List, [], ◌∷◌, ◌++◌, ℕ, zero, suc, ℤ, true,
  false, String, ◌⊎◌, inl, inr, arith, length, Bool, if◌then◌else◌, Option,
}
use repodocs_go.Domain.Errors.{Error, is_nil}
use repodocs_go.Domain.Result.{StrategyResult}
use repodocs_go.Strategies.Sitemap.{
  Sitemap, index, url_set, Source, Options, sitemap_of, filter_sitemap_urls, limited,
}
use repodocs_go.Strategies.Sitemap.Plain.{SitemapUrl}
use repodocs_go.Strategies.Sitemap.Walk.{
  index_outcome, Progress, Turn, next, leave, stop, collect_each, collect_urls_from_sitemap,
  take_batch, index_turn, index_loop, process_sitemap_index, within_limit, limit_reached,
}
use repodocs_go.Strategies.Sitemap.Kept.{
  append-nil, append_assoc, filter-append, filter_idem, limited-batch, limited-full, limited_again,
  limited_idem, limited-nil,
}

-- The URLs that the sitemaps at a list of addresses name: those of a sitemap that cannot be read are
-- left out, and an index names those of its entries. `answer` is what each address gives.
pub data Lists (answer : String → Error ⊎ Sitemap) : List String → List SitemapUrl → Type 0 where
  nothing : Lists answer [] []
  unread :
      {url : String} {rest : List String} {us : List SitemapUrl} (e : Error)
      → answer url ≡ inl e
      → is_nil e ≡ false
      → Lists answer rest us
      → Lists answer (url ∷ rest) us
  pages :
      {url : String} {rest : List String} {us : List SitemapUrl} (vs : List SitemapUrl)
      → answer url ≡ inr (url_set vs)
      → Lists answer rest us
      → Lists answer (url ∷ rest) (vs ++ us)
  nested :
      {url : String} {rest entries : List String} {us vs : List SitemapUrl}
      → answer url ≡ inr (index entries)
      → Lists answer entries vs
      → Lists answer rest us
      → Lists answer (url ∷ rest) (vs ++ us)

module _ (answer : String → Error ⊎ Sitemap) where
  -- The number of sitemaps under the addresses, which bounds their nesting.
  abbrev pub size : {urls : List String} {us : List SitemapUrl} → Lists answer urls us → ℕ
  size nothing = 0
  size (unread e a ne d) = 1 + size d
  size (pages vs a d) = 1 + size d
  size (nested a d d') = 1 + size d + size d'

module _ {W : Type 0} (src : Source W) (answer : String → Error ⊎ Sitemap)
    (steady : (url : String) (w : W) → sitemap_of src url (src.get url w).0 ≡ answer url)
    (alive : (w : W) → is_nil (src.ctx_err w) ≡ true) (f : String) where
  -- What one address gives, with enough fuel.
  abbrev Gives : ℕ → String → Bool → List SitemapUrl → Type 0
  Gives n url ok us =
      (w : W)
      → let c = collect_urls_from_sitemap src n f url w in (is_nil c.err ≡ ok) × (c.urls ≡ us)

  abbrev GivesAll : ℕ → List String → List SitemapUrl → Type 0
  GivesAll n urls us =
      (all : List SitemapUrl) (discovered : ℕ) (w : W)
      → let c = collect_each src (collect_urls_from_sitemap src n f) urls all discovered w in
        (is_nil c.err ≡ true) × (c.urls ≡ all ++ filter_sitemap_urls f us)

  unread-Gives :
      (n : ℕ) (url : String) (e : Error)
      → answer url ≡ inl e
      → is_nil e ≡ false
      → Gives (suc n) url false []
  unfolding collect_urls_from_sitemap
  unread-Gives n url e a ne w = rw (steady url w, a) (ne, refl)

  pages-Gives :
      (n : ℕ) (url : String) (vs : List SitemapUrl)
      → answer url ≡ inr (url_set vs)
      → Gives (suc n) url true (filter_sitemap_urls f vs)
  unfolding collect_urls_from_sitemap
  pages-Gives n url vs a w = rw (steady url w, a) (refl, refl)

  nested-Gives :
      (n : ℕ) (url : String) (entries : List String) (vs : List SitemapUrl)
      → answer url ≡ inr (index entries)
      → GivesAll n entries vs
      → Gives (suc n) url true (filter_sitemap_urls f vs)
  unfolding collect_urls_from_sitemap
  nested-Gives n url entries vs a h w =
      let (fine, urls) = h [] 0 (src.get url w).1 in
      rw (steady url w, a) (fine, rw (fine, urls) (filter_idem f vs))

  each-Gives :
      (n : ℕ) (url : String) (rest : List String) (ok : Bool) (us vs : List SitemapUrl)
      → Gives n url ok us
      → GivesAll n rest vs
      → (all : List SitemapUrl) (discovered : ℕ) (w : W)
      → let c =
          collect_each src (collect_urls_from_sitemap src n f) (url ∷ rest) all discovered w in
        (is_nil c.err ≡ true)
        × (c.urls ≡ (if ok then all ++ us else all) ++ filter_sitemap_urls f vs)
  unfolding collect_each
  each-Gives n url rest ok us vs one later all discovered w =
      let (said, urls) = one w in rw (alive w, said, urls) (later _ _ _)

  kept_both :
      (all vs us : List SitemapUrl)
      → (all ++ filter_sitemap_urls f vs) ++ filter_sitemap_urls f us
        ≡ all ++ filter_sitemap_urls f (vs ++ us)
  kept_both all vs us =
      append_assoc all (filter_sitemap_urls f vs) (filter_sitemap_urls f us)
      ∙ ap (λ l. all ++ l) (sym (filter-append f vs us))

  all-GivesAll :
      {urls : List String} {us : List SitemapUrl} (d : Lists answer urls us) (n : ℕ)
      → size answer d ≤ n
      → GivesAll n urls us
  unfolding collect_each filter_sitemap_urls
  all-GivesAll nothing n h all discovered w = (refl, ground (arith, append-nil all))
  all-GivesAll (unread e a ne d) zero h all discovered w = absurd (omega (arith, h))
  all-GivesAll (unread e a ne d) (suc n) h all discovered w =
      each-Gives (suc n) _ _ false [] _ (unread-Gives n _ e a ne)
        (all-GivesAll d (suc n) (omega (arith, h))) all discovered w
  all-GivesAll (pages vs a d) zero h all discovered w = absurd (omega (arith, h))
  all-GivesAll (pages vs a d) (suc n) h all discovered w =
      let (fine, urls) =
        each-Gives (suc n) _ _ true _ _ (pages-Gives n _ vs a)
          (all-GivesAll d (suc n) (omega (arith, h))) all discovered w in
      (fine, urls ∙ kept_both all vs _)
  all-GivesAll (nested a d d') zero h all discovered w = absurd (omega (arith, h))
  all-GivesAll (nested a d d') (suc n) h all discovered w =
      let (fine, urls) =
        each-Gives (suc n) _ _ true _ _
          (nested-Gives n _ _ _ a (all-GivesAll d n (omega (arith, h))))
          (all-GivesAll d' (suc n) (omega (arith, h))) all discovered w in
      (fine, urls ∙ kept_both all _ _)

  -- The loop of the index, for a `process` that gives nil.
  module _
      (process : List SitemapUrl → Option StrategyResult → W → Error × Option StrategyResult × W)
      (l : ℤ)
      (goes_on : (us : List SitemapUrl) (r : Option StrategyResult) (w : W)
        → is_nil (process us r w).0 ≡ true) where
    abbrev opts : Options
    opts = record { limit = l; filter_url = f }

    -- What a turn leaves to the rest of the loop, and that it does not return.
    abbrev Handed : Turn W → List SitemapUrl → Type 0
    Handed (next p) us = p.handed ≡ limited l us
    Handed (leave p) us = (vs : List SitemapUrl) → p.handed ≡ limited l (us ++ vs)
    Handed (stop e p) us = ⊥

    take_batch-Handed :
        (us : List SitemapUrl) (p : Progress W)
        → limited l p.handed ≡ p.handed
        → Handed (take_batch src process opts us p) (p.handed ++ us)
    unfolding take_batch
    take_batch-Handed [] p fits = sym (ap (limited l) (append-nil p.handed) ∙ fits)
    take_batch-Handed (u ∷ us) p fits = elim (Bool-cases (limit_reached l (length p.handed))) [
      | inl full ↦ rw full (λ vs. sym (
          ap (limited l) (append_assoc p.handed (u ∷ us) vs)
          ∙ limited-full l p.handed ((u ∷ us) ++ vs) fits full))
      | inr room ↦
          rw (room, goes_on (within_limit l (length p.handed) (u ∷ us)) p.result p.world)
            (limited-batch l p.handed (u ∷ us) fits)
    ]

    index_turn-Handed :
        (n : ℕ) (url : String) (ok : Bool) (us : List SitemapUrl) (p : Progress W)
        → Gives n url ok us
        → limited l p.handed ≡ p.handed
        → Handed
            (index_turn src process opts (collect_urls_from_sitemap src n f) url p)
            (if ok then p.handed ++ us else p.handed)
    unfolding index_turn
    index_turn-Handed n url true us p one fits =
        let (said, urls) = one p.world in
        rw (alive p.world, said, urls) (take_batch-Handed us _ fits)
    index_turn-Handed n url false us p one fits =
        let (said, urls) = one p.world in rw (alive p.world, said) (sym fits)

    abbrev loop : ℕ → List String → Progress W → Turn W
    loop n = index_loop src process opts (collect_urls_from_sitemap src n f)

    -- The loop came to its end, or to a `break`, with these URLs.
    abbrev Ended : Turn W → List SitemapUrl → Type 0
    Ended (next p) us = p.handed ≡ us
    Ended (leave p) us = p.handed ≡ us
    Ended (stop e p) us = ⊥

    turn-Ended :
        (n : ℕ) (url : String) (rest : List String) (p : Progress W) (us vs : List SitemapUrl)
        → Handed (index_turn src process opts (collect_urls_from_sitemap src n f) url p) us
        → ((p' : Progress W)
            → limited l p'.handed ≡ p'.handed
            → Ended (loop n rest p') (limited l (p'.handed ++ vs)))
        → Ended (loop n (url ∷ rest) p) (limited l (us ++ vs))
    unfolding index_loop
    turn-Ended n url rest p us vs h later =
        after (index_turn src process opts (collect_urls_from_sitemap src n f) url p) h
      where
        after :
            (t : Turn W)
            → Handed t us
            → Ended
                (elim t [ next p' ↦ loop n rest p' | leave p' ↦ leave p' | stop e p' ↦ stop e p' ])
                (limited l (us ++ vs))
        after (next p') e =
            subst (Ended (loop n rest p')) (ap (λ x. limited l (x ++ vs)) e ∙ limited_again l us vs)
              (later p' (ap (limited l) e ∙ limited_idem l us ∙ sym e))
        after (leave p') e = e vs
        after (stop e' p') e = absurd e

    abbrev LoopEnds : ℕ → List String → List SitemapUrl → Type 0
    LoopEnds n urls us =
        (p : Progress W)
        → limited l p.handed ≡ p.handed
        → Ended (loop n urls p) (limited l (p.handed ++ filter_sitemap_urls f us))

    listed-LoopEnds :
        (n : ℕ) (url : String) (rest : List String) (vs us : List SitemapUrl)
        → Gives n url true (filter_sitemap_urls f vs)
        → LoopEnds n rest us
        → LoopEnds n (url ∷ rest) (vs ++ us)
    listed-LoopEnds n url rest vs us one later p fits =
        subst (Ended (loop n (url ∷ rest) p)) (ap (limited l) (kept_both p.handed vs us)) (
          turn-Ended n url rest p _ (filter_sitemap_urls f us)
            (index_turn-Handed n url true _ p one fits) later)

    pub loop-LoopEnds :
        {urls : List String} {us : List SitemapUrl} (d : Lists answer urls us) (n : ℕ)
        → size answer d ≤ n
        → LoopEnds n urls us
    unfolding index_loop filter_sitemap_urls
    loop-LoopEnds nothing n h p fits =
        sym (ap (limited l) (ground (arith, append-nil p.handed)) ∙ fits)
    loop-LoopEnds (unread e a ne d) zero h p fits = absurd (omega (arith, h))
    loop-LoopEnds (unread e a ne d) (suc n) h p fits =
        turn-Ended (suc n) _ _ p _ (filter_sitemap_urls f _)
          (index_turn-Handed (suc n) _ false [] p (unread-Gives n _ e a ne) fits)
          (loop-LoopEnds d (suc n) (omega (arith, h)))
    loop-LoopEnds (pages vs a d) zero h p fits = absurd (omega (arith, h))
    loop-LoopEnds (pages vs a d) (suc n) h p fits =
        listed-LoopEnds (suc n) _ _ vs _ (pages-Gives n _ vs a)
          (loop-LoopEnds d (suc n) (omega (arith, h))) p fits
    loop-LoopEnds (nested a d d') zero h p fits = absurd (omega (arith, h))
    loop-LoopEnds (nested a d d') (suc n) h p fits =
        listed-LoopEnds (suc n) _ _ _ _
          (nested-Gives n _ _ _ a (all-GivesAll d n (omega (arith, h))))
          (loop-LoopEnds d' (suc n) (omega (arith, h))) p fits

    outcome-Ended :
        (t : Turn W) (us : List SitemapUrl)
        → Ended t us
        → let (err, p) = index_outcome src process opts t in (is_nil err ≡ true) × (p.handed ≡ us)
    unfolding index_outcome
    outcome-Ended (next p) us e = (refl, ground (arith, e))
    outcome-Ended (leave p) us e = (refl, ground (arith, e))
    outcome-Ended (stop e' p) us e = absurd e

    -- Where each address gives the same answer every time, the context is not done and `processURLs`
    -- gives nil, `processSitemapIndex` gives nil and hands to `processURLs` exactly the first
    -- `opts.Limit` (if that is positive, else all) of the URLs that have the filter as a prefix, among
    -- those of all the sitemaps of the index, in its order, nested indexes included and sitemaps that
    -- cannot be read left out. A nesting of as many levels as there are sitemaps is enough.
    pub process_sitemap_index-listing :
        (sitemaps : List String) (us : List SitemapUrl) (d : Lists answer sitemaps us) (n : ℕ)
        (p : Progress W)
        → size answer d ≤ n
        → p.handed ≡ []
        → let (err, p') = process_sitemap_index src process opts n sitemaps p in
          (is_nil err ≡ true) × (p'.handed ≡ limited l (filter_sitemap_urls f us))
    unfolding process_sitemap_index
    process_sitemap_index-listing sitemaps us d n p h fresh_ = outcome-Ended (loop n sitemaps p) _ (
        subst (λ h'. Ended (loop n sitemaps p) (limited l (h' ++ filter_sitemap_urls f us))) fresh_
          (loop-LoopEnds d n h p (ap (limited l) fresh_ ∙ limited-nil l ∙ sym fresh_)))
