-- ===== src/Strategies/GithubPages/Crawl/Linked.antt =====
-- internal/strategies/github_pages.go: where a level of `discoverViaBrowser` leads.
use repodocs_go.Base.{
  ◌∙◌, ◌||◌, ◌≡◌, refl, sym, ap, subst, arith, contains, contains-append, String, List, [], ◌∷◌,
  ◌++◌, ℕ, zero, suc, length, ℤ, pos, negsuc, ◌⊎◌, inl, inr, Bool-cases, true, false, clamp_zero,
}
use package.text.Mathlib.Text.{◌==◌ as str_eq}
use package.text.Mathlib.TextEquality.{eq_iff}
use package.text.Mathlib.TextPositions.{eq_refl}
use repodocs_go.Domain.Errors.{Error}
use repodocs_go.Strategies.GithubPages.Crawl.{
  Crawl, went_through, discover, queue_links, unvisited, has_enough, visit_level,
}
use repodocs_go.Strategies.GithubPages.Crawl.Level.{visit_level-seen, visit_level-room}

has_enough-unlimited : (limit : ℤ) (n : ℕ) → clamp_zero limit ≡ 0 → has_enough limit n ≡ false
has_enough-unlimited (pos zero) n h = refl
has_enough-unlimited (pos (suc limit)) n h = absurd (omega (arith, h))
has_enough-unlimited (negsuc limit) n h = refl

contains-unvisited :
    (visited links : List String) (v : String)
    → contains links v ≡ true
    → (contains visited v ≡ true) ⊎ (contains (unvisited visited links) v ≡ true)
contains-unvisited visited (l ∷ links) v h =
    ground (arith, eq_iff l v, contains-unvisited visited links v)
contains-unvisited visited [] v h = absurd (cc)

contains_of_unvisited :
    (visited links : List String) (v : String)
    → contains (unvisited visited links) v ≡ true
    → contains links v ≡ true
contains_of_unvisited visited [] v h = h
contains_of_unvisited visited (l ∷ links) v h =
    ground (arith, contains_of_unvisited visited links v)

module _ (links_of : String → Error ⊎ List String) where
  abbrev pub links_in : Error ⊎ List String → List String
  links_in (inl e) = []
  links_in (inr links) = links

  -- A page links to a URL, and its rendering did not fail.
  abbrev pub Links : String → String → Type 0
  Links u v = contains (links_in (links_of u)) v ≡ true

  -- Reached from the base by fewer than so many links.
  pub data Fewer (base : String) : ℕ → String → Type 0 where
    here : {n : ℕ} → Fewer base (suc n) base
    follow : {n : ℕ} {u v : String} → Fewer base n u → Links u v → Fewer base (suc n) v

  pub Fewer-suc : {base : String} {n : ℕ} {v : String} → Fewer base n v → Fewer base (suc n) v
  Fewer-suc here = here
  Fewer-suc (follow p l) = follow (Fewer-suc p) l

  -- Queuing the links of a page: they are in the next level, or visited already.
  queue-keeps :
      (answer : Error ⊎ List String) (c : Crawl)
      → ((queue_links answer c).visited ≡ c.visited)
        × ((queue_links answer c).discovered ≡ c.discovered)
        × ((v : String) → contains c.next v ≡ true → contains (queue_links answer c).next v ≡ true)
        × ((v : String)
            → contains (links_in answer) v ≡ true
            → (contains c.visited v ≡ true) ⊎ (contains (queue_links answer c).next v ≡ true))
        × ((v : String)
            → contains (queue_links answer c).next v ≡ true
            → (contains c.next v ≡ true) ⊎ (contains (links_in answer) v ≡ true))
  queue-keeps (inl e) c = (refl, refl, λ v h. h, λ v h. absurd cc, λ v h. inl h)
  queue-keeps (inr links) c = (
    refl,
    refl,
    λ v h. ground (arith, contains-append c.next (unvisited c.visited links) v),
    λ v h. ground (
      arith,
      contains-append c.next (unvisited c.visited links) v,
      contains-unvisited c.visited links v,
    ),
    λ v h. ground (
      arith,
      contains-append c.next (unvisited c.visited links) v,
      contains_of_unvisited c.visited links v,
    ),
  )

  -- A level, from the page that the loop is at to its end.
  pub record Level (us : List String) (c c' : Crawl) : Type 0 where
    pub same : c'.visited ≡ c'.discovered
    pub found : (v : String) → contains c'.discovered v ≡ (contains c.discovered v || contains us v)
    pub kept : (v : String) → contains c.next v ≡ true → contains c'.next v ≡ true
    pub linked :
        (v : String)
        → contains c'.next v ≡ true
        → (contains c.next v ≡ true) ⊎ ((u : String) × (contains us u ≡ true) × Links u v)
    pub closed :
        (u v : String)
        → contains us u ≡ true
        → Links u v
        → (contains c.discovered u ≡ true)
          ⊎ ((contains c'.discovered v ≡ true) ⊎ (contains c'.next v ≡ true))

  Level-seen :
      (url : String) (us : List String) (c c' : Crawl)
      → contains c.discovered url ≡ true
      → Level us c c'
      → Level (url ∷ us) c c'
  Level-seen url us c c' seen l = record {
    same = l.same;
    found = λ v. ground (arith, l.found v, eq_iff url v);
    kept = l.kept;
    linked =
        λ v h. elim (l.linked v h) [ inl old ↦ inl old | inr (u, g, k) ↦ inr (u, ground arith, k) ];
    closed = λ u v h k. elim (Bool-cases (str_eq url u)) [
      | inl e ↦ inl (ground (arith, eq_iff url u))
      | inr other ↦ l.closed u v (ground arith) k
    ];
  }

  Level-fresh :
      (url : String) (us : List String) (c c' : Crawl)
      → c.visited ≡ c.discovered
      → Level us (queue_links (links_of url) (discover url c)) c'
      → Level (url ∷ us) c c'
  Level-fresh url us c c' same l =
      let d = discover url c in
      let (same_v, same_d, keeps, queued, came) = queue-keeps (links_of url) d in
      let found_by : (v : String)
          → contains c'.discovered v ≡ (contains c.discovered v || contains (url ∷ us) v) =
        λ v. ground (arith, l.found v, same_d, contains-append c.discovered (url ∷ []) v) in
      let reached : (v : String)
          → Links url v
          → (contains c'.discovered v ≡ true) ⊎ (contains c'.next v ≡ true) =
        λ v k. elim (queued v k) [
          | inl seen ↦ inl (ground (arith, l.found v, same_d, same))
          | inr next ↦ inr (l.kept v next)
        ] in
      record {
        same = l.same;
        found = found_by;
        kept = λ v h. l.kept v (keeps v h);
        linked = λ v h. elim (l.linked v h) [
          | inl old ↦ elim (came v old) [
            | inl older ↦ inl older
            | inr k ↦ inr (url, ground (arith, eq_refl url), k)
          ]
          | inr (u, g, k) ↦ inr (u, ground arith, k)
        ];
        closed = λ u v h k. elim (Bool-cases (str_eq url u)) [
          | inl e ↦ inr (reached v (subst (λ x. Links x v) (sym ((eq_iff url u).0 e)) k))
          | inr other ↦ elim (l.closed u v (ground arith) k) [
            | inl old ↦ inl (ground (arith, same_d, contains-append c.discovered (url ∷ []) u))
            | inr there ↦ inr there
          ]
        ];
      }

  module _ (limit : ℤ) where
    -- Without a limit the loop goes through the level.
    pub visit_level-Level :
        (us : List String) (c : Crawl)
        → clamp_zero limit ≡ 0
        → c.visited ≡ c.discovered
        → (c' : Crawl) × (visit_level links_of limit us c ≡ went_through c') × Level us c c'
    unfolding visit_level
    visit_level-Level [] c free same = (
      c,
      refl,
      record {
        same = same;
        found = λ v. ground arith;
        kept = λ v h. h;
        linked = λ v h. inl h;
        closed = λ u v h k. absurd cc;
      },
    )
    visit_level-Level (url ∷ us) c free same = elim (Bool-cases (contains c.visited url)) [
      | inl seen ↦
          let (c', e, l) = visit_level-Level us c free same in
          (
            c',
            visit_level-seen links_of limit url us c seen ∙ e,
            Level-seen url us c c' (rw (sym same) seen) l,
          )
      | inr fresh ↦
          let q = queue_links (links_of url) (discover url c) in
          let (same_v, same_d, _, _, _) = queue-keeps (links_of url) (discover url c) in
          let (c', e, l) =
            visit_level-Level us q free (same_v ∙ ap (λ d. d ++ url ∷ []) same ∙ sym same_d) in
          let room = has_enough-unlimited limit (length (c.discovered ++ url ∷ [])) free in
          (
            c',
            visit_level-room links_of limit url us c fresh room ∙ e,
            Level-fresh url us c c' same l,
          )
    ]
