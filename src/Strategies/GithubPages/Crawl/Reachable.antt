-- ===== src/Strategies/GithubPages/Crawl/Reachable.antt =====
-- internal/strategies/github_pages.go: without a limit, `discoverViaBrowser` lists what the links reach.
use repodocs_go.Strategies.GithubPages.Crawl.Level.{crawl_levels-goes}
use repodocs_go.Base.{
  ◌≤◌, ◌+◌, ◌≡◌, refl, subst, ◌↔◌, arith, contains, contains_refl, contains-singleton, String, List,
  [], ◌∷◌, ℕ, zero, suc, ℤ, ◌⊎◌, inl, inr, Bool-cases, true, clamp_zero,
}
use repodocs_go.Domain.Errors.{Error}
use repodocs_go.Strategies.GithubPages.Crawl.{
  Crawl, crawl_levels, no_pages, depth_of, discover_via_browser,
}
use repodocs_go.Strategies.GithubPages.Crawl.Linked.{
  Links, Fewer, here, follow, Fewer-suc, Level, visit_level-Level,
}

module _ (links_of : String → Error ⊎ List String) (base : String) where
  -- Before a level, of the URLs that it starts with: what is discovered is reached by fewer links than
  -- there were levels, all of that, and links to no other URLs than those discovered or to be visited.
  record Frontier (n : ℕ) (us : List String) (c : Crawl) : Type 0 where
    same : c.visited ≡ c.discovered
    sound : (v : String) → contains c.discovered v ≡ true → Fewer links_of base n v
    next_sound : (v : String) → contains us v ≡ true → Fewer links_of base (suc n) v
    full : (v : String) → Fewer links_of base n v → contains c.discovered v ≡ true
    start : (contains c.discovered base ≡ true) ⊎ (contains us base ≡ true)
    closed :
        (u v : String)
        → contains c.discovered u ≡ true
        → Links links_of u v
        → (contains c.discovered v ≡ true) ⊎ (contains us v ≡ true)

  -- One more link leads to what is discovered or to be visited.
  reaches :
      (n : ℕ) (us : List String) (c : Crawl)
      → Frontier n us c
      → (v : String) → Fewer links_of base (suc n) v
      → (contains c.discovered v ≡ true) ⊎ (contains us v ≡ true)
  reaches n us c f v here = f.start
  reaches n us c f v (follow {u = x} p k) = f.closed x v (f.full x p) k

  Frontier-next :
      (n : ℕ) (us : List String) (c c' : Crawl)
      → Frontier n us c
      → Level links_of us (record c { next = [] }) c'
      → Frontier (suc n) c'.next c'
  Frontier-next n us c c' f l =
      let sound' : (v : String) → contains c'.discovered v ≡ true → Fewer links_of base (suc n) v =
        λ v h. elim (Bool-cases (contains c.discovered v)) [
          | inl old ↦ Fewer-suc links_of (f.sound v old)
          | inr fresh ↦ f.next_sound v (ground (arith, l.found v))
        ] in
      let full' : (v : String) → Fewer links_of base (suc n) v → contains c'.discovered v ≡ true =
        λ v p. elim (reaches n us c f v p) [
          | inl old ↦ ground (arith, l.found v)
          | inr more ↦ ground (arith, l.found v)
        ] in
      record {
        same = l.same;
        sound = sound';
        next_sound = λ v h. elim (l.linked v h) [
          | inl old ↦ absurd cc
          | inr (u, g, k) ↦ follow (f.next_sound u g) k
        ];
        full = full';
        start = inl (full' base here);
        closed = λ u v h k. elim (Bool-cases (contains c.discovered u)) [
          | inl old ↦ elim (f.closed u v old k) [
            | inl there ↦ inl (ground (arith, l.found v))
            | inr more ↦ inl (ground (arith, l.found v))
          ]
          | inr fresh ↦ elim (l.closed u v (ground (arith, l.found u)) k) [
            | inl old ↦ absurd cc
            | inr there ↦ there
          ]
        ];
      }

  -- Where nothing is left to visit, what is discovered is all that links reach.
  full_at_end :
      (n : ℕ) (c : Crawl)
      → Frontier n [] c
      → (m : ℕ) (v : String) → Fewer links_of base m v
      → contains c.discovered v ≡ true
  full_at_end n c f zero v p = elim p [ ]
  full_at_end n c f (suc m) v here = elim f.start [ inl h ↦ h | inr none_left ↦ absurd cc ]
  full_at_end n c f (suc m) v (follow {u = x} p k) =
      elim (f.closed x v (full_at_end n c f m x p) k) [ inl h ↦ h | inr none_left ↦ absurd cc ]

  Fewer-le : (n m : ℕ) {v : String} → n ≤ m → Fewer links_of base n v → Fewer links_of base m v
  Fewer-le zero m le p = elim p [ ]
  Fewer-le (suc n) zero le p = absurd (omega (arith, le))
  Fewer-le (suc n) (suc m) le here = here
  Fewer-le (suc n) (suc m) le (follow p k) = follow (Fewer-le n m (omega (arith, le)) p) k

  none-Fewer : {v : String} → ¬ Fewer links_of base 0 v
  none-Fewer p = elim p [ ]

  module _ (limit : ℤ) (free : clamp_zero limit ≡ 0) where
    levels-reach :
        (depth n total : ℕ) (us : List String) (c : Crawl)
        → total ≡ depth + n
        → Frontier n us c
        → (v : String)
        → (contains (crawl_levels links_of limit depth us c) v ≡ true) ↔ Fewer links_of base total v
    unfolding crawl_levels
    levels-reach zero n total us c e f v =
        subst (λ k. (contains c.discovered v ≡ true) ↔ Fewer links_of base k v) (omega (arith, e))
          (f.sound v, f.full v)
    levels-reach (suc depth) n total [] c e f v =
        (λ h. Fewer-le n total (omega (arith, e)) (f.sound v h), full_at_end n c f total v)
    levels-reach (suc depth) n total (u ∷ us) c e f v =
        let (c', goes, l) =
          visit_level-Level links_of limit (u ∷ us) (record c { next = [] }) free f.same in
        rw (crawl_levels-goes links_of limit u us c depth c' goes) (
          levels-reach depth (suc n) total c'.next c' (omega (arith, e))
            (Frontier-next n (u ∷ us) c c' f l) v)

-- Without a limit, the browser crawl discovers exactly the base and what links reach from it, each
-- through a page whose rendering succeeds, by fewer links than the depth, which is 3 where none is set.
pub discover_via_browser-reach :
    (links_of : String → Error ⊎ List String) (limit max_depth : ℤ) (base : String)
    → clamp_zero limit ≡ 0
    → (v : String)
    → (contains (discover_via_browser links_of limit max_depth base) v ≡ true)
      ↔ Fewer links_of base (depth_of max_depth) v
unfolding discover_via_browser
discover_via_browser-reach links_of limit max_depth base free v =
    levels-reach links_of base limit free (depth_of max_depth) 0 (depth_of max_depth) (base ∷ [])
      no_pages (omega arith)
      (record {
        same = refl;
        sound = λ u h. absurd cc;
        next_sound = λ u h. subst (Fewer links_of base 1) (contains-singleton base u h) here;
        full = λ u p. absurd (none-Fewer links_of base p);
        start = inr (contains_refl base);
        closed = λ u w h k. absurd cc;
      })
      v
