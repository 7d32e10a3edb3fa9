-- ===== src/Strategies/Crawler/Tally.antt =====
-- internal/strategies/crawler.go: every step of the crawler keeps its invariant.
use mathlib.Core.List.Perm
use repodocs_go.Base.{
  ◌≡◌, ◌≢◌, refl, ◌≤◌, ◌+◌, arith, All, Distinct, contains, Bool-cases, true, false, not, ◌&&◌,
  String, List, [], ◌∷◌, Option, none, some, ℕ, length, inl, inr, ◌⊎◌,
}
use repodocs_go.Domain.Errors.{Error, is_nil}
use repodocs_go.Domain.Result.{calls, snapshot, completed_docs, new_strategy_result}
use repodocs_go.Domain.Result.Tally.{calls_any_order}
use repodocs_go.State.{Manager, mark_seen}
use repodocs_go.Strategies.Callbacks.{Outcome, skipped, failed, dry}
use repodocs_go.Strategies.Crawler.Page.{
  Site, Options, Document, Response, is_wanted, is_unchanged, write_document, keep_document,
  on_manager, document, finish_response, is_page,
}
use repodocs_go.Strategies.Crawler.{
  gate_link, enter_link, count_response, Crawl, Event, gate, enter, respond, finish, fail_request,
  cancel, limit_reached, nth, finish_at, step, run, new_crawl_context,
}
use repodocs_go.Strategies.Crawler.Counts.{
  IsValid, WithinLimit, new-WithinLimit, enter-IsValid, gate-IsValid, respond-IsValid, fail-IsValid,
  finished-IsValid,
}

module _ (s : Site) (opts : Options) where
  write-wet :
      (url : String) (doc : Document) (m : Option Manager)
      → (write_document s opts url doc m).0 ≢ dry
  unfolding write_document
  write-wet url doc m e = elim (Bool-cases (is_nil (s.write url doc.content))) [
    | inl ok ↦ cc
    | inr bad ↦ cc
  ]

  keep-wet :
      (url : String) (doc : Document) (m : Option Manager)
      → opts.dry_run ≡ false
      → (keep_document s opts url doc m).0 ≢ dry
  unfolding keep_document
  keep-wet url doc m wet e = elim (Bool-cases (is_unchanged url doc.content_hash m)) [
    | inl same ↦ (let d : skipped ≡ dry = rw (keep_document, same) at e in cc)
    | inr changed ↦ write-wet url doc m (rw (keep_document, changed, wet) at e)
  ]

  documented :
      (r : Response) (m : Option Manager) (read : Error ⊎ Document)
      → opts.dry_run ≡ false
      → (elim read as (λ x. Outcome × Option Manager) [
        | inl e ↦ (failed, m)
        | inr doc ↦ keep_document s opts r.url doc (on_manager (mark_seen r.url) m)
      ]).0
        ≢ dry
  documented r m (inl e) wet h = cc
  documented r m (inr doc) wet h = keep-wet r.url doc (on_manager (mark_seen r.url) m) wet h

  finish-wet :
      (r : Response) (m : Option Manager)
      → opts.dry_run ≡ false
      → (finish_response s opts r m).0 ≢ dry
  unfolding finish_response
  finish-wet r m wet e = elim (Bool-cases (not opts.force && s.exists r.url)) [
    | inl there ↦ (let d : skipped ≡ dry = rw (finish_response, there) at e in cc)
    | inr new ↦ documented r m (document s opts r) wet (rw (finish_response, new) at e)
  ]

  finish_at-IsValid :
      (n : ℕ) (o : Option Response) (c : Crawl)
      → nth n c.open_pages ≡ o
      → IsValid s opts c
      → IsValid s opts (finish_at s opts n o c)
  unfolding finish_at
  finish_at-IsValid n none c e v = v
  finish_at-IsValid n (some r) c e v =
      finished-IsValid s opts n (finish_response s opts r c.manager).0
        (finish_response s opts r c.manager).1 r c v e (finish-wet r c.manager)

  step-IsValid : (e : Event) (c : Crawl) → IsValid s opts c → IsValid s opts (step s opts e c)
  unfolding step finish_at gate_link enter_link count_response
  step-IsValid (gate link) c v =
      elim (Bool-cases (is_wanted s opts link && not (limit_reached opts.limit c.processed))) [
        | inl yes_ ↦ rw yes_ (gate-IsValid s opts link c v (ground (arith, yes_)))
        | inr no_ ↦ rw no_ v
      ]
  step-IsValid (enter link) c v =
      elim (Bool-cases (contains c.gated link && not (contains c.visited link))) [
        | inl yes_ ↦
            rw yes_ (enter-IsValid s opts link c v (ground (arith, yes_)) (ground (arith, yes_)))
        | inr no_ ↦ rw no_ v
      ]
  step-IsValid (respond r) c v =
      elim (Bool-cases
        (not c.cancelled && is_page r && not (limit_reached opts.limit c.processed))) [
          | inl yes_ ↦ rw yes_ (respond-IsValid s opts r c v (ground (arith, yes_)))
          | inr no_ ↦ rw no_ v
        ]
  step-IsValid (finish n) c v = finish_at-IsValid n (nth n c.open_pages) c refl v
  step-IsValid fail_request c v = fail-IsValid s opts c v
  step-IsValid cancel c v = record {
    within = v.within;
    same = v.same;
    once = v.once;
    wanted = v.wanted;
    passed = v.passed;
    discovered = v.discovered;
    ended = v.ended;
    ended_all = v.ended_all;
    completed = v.completed;
  }

  run-IsValid : (es : List Event) (c : Crawl) → IsValid s opts c → IsValid s opts (run s opts es c)
  run-IsValid [] c v = v
  run-IsValid (e ∷ es) c v = run-IsValid es (step s opts e c) (step-IsValid e c v)

  new-IsValid : (m : Option Manager) → IsValid s opts (new_crawl_context m)
  new-IsValid m = record {
    within = new-WithinLimit opts.limit;
    same = refl;
    once = tt;
    wanted = tt;
    passed = tt;
    discovered = refl;
    ended = omega arith;
    ended_all = λ h. refl;
    completed = omega arith;
  }

  -- However the callbacks of a crawl interleave: no link is visited twice, and only links that pass the filters;
  -- of a limit that is set no more pages get past the gate, and so no more are written or skipped. The result
  -- has counted as discovered the links that were visited, and as attempted at least the pages that ended
  -- as written, skipped or failed and those still open.
  pub run-Counts :
      (m : Option Manager) (strategy entry_url : String) (now : ℕ) (es : List Event)
      → let c = run s opts es (new_crawl_context m) in
        let r = calls c.told (some (new_strategy_result strategy entry_url now)) in
        Distinct c.visits
        × All (λ u. is_wanted s opts u ≡ true) c.visits
        × WithinLimit opts.limit c.processed
        × (completed_docs r + length c.open_pages ≤ c.processed)
        × ((snapshot r).urls_discovered ≡ length c.visits)
        × (completed_docs r + (snapshot r).docs_failed + length c.open_pages
            ≤ (snapshot r).urls_attempted)
  run-Counts m strategy entry_url now es =
      let c = run s opts es (new_crawl_context m) in
      let v = run-IsValid es (new_crawl_context m) (new-IsValid m) in
      let (completed_, failed_, discovered_, attempted_) =
        calls_any_order strategy entry_url now c.told c.told (Perm.refl c.told) in
      (
        v.once,
        v.wanted,
        v.within,
        omega (arith, completed_, v.completed),
        omega (arith, discovered_, v.discovered),
        omega (arith, completed_, failed_, attempted_, v.ended),
      )

  -- Unless it is a dry run, the pages attempted are exactly those written, skipped and failed and those still open,
  -- at every moment of a crawl, whatever the order of its callbacks.
  pub run-attempts :
      (m : Option Manager) (strategy entry_url : String) (now : ℕ) (es : List Event)
      → opts.dry_run ≡ false
      → let c = run s opts es (new_crawl_context m) in
        let r = calls c.told (some (new_strategy_result strategy entry_url now)) in
        (snapshot r).urls_attempted
        ≡ completed_docs r + (snapshot r).docs_failed + length c.open_pages
  run-attempts m strategy entry_url now es wet =
      let c = run s opts es (new_crawl_context m) in
      let v = run-IsValid es (new_crawl_context m) (new-IsValid m) in
      let (completed_, failed_, _, attempted_) =
        calls_any_order strategy entry_url now c.told c.told (Perm.refl c.told) in
      omega (arith, completed_, failed_, attempted_, v.ended_all wet)
