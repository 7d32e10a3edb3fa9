-- ===== src/Strategies/Crawler/Unseen.antt =====
-- internal/strategies/crawler.go, with internal/state/manager.go: a page whose file is there is skipped before it
-- is marked as seen.
use package.text.Mathlib.Text.{◌==◌ as str_eq}
use package.text.Mathlib.TextEquality.{eq_iff}
use mathlib.Core.List.{Memᴰ}
use repodocs_go.Base.{
  ◌≡◌, refl, ap, ◌∙◌, arith, contains, Bool-cases, true, false, not, ◌&&◌, String, List, [], ◌∷◌,
  Option, none, some, ℕ, inl, inr, ◌⊎◌,
}
use repodocs_go.Domain.Errors.{Error, is_nil}
use repodocs_go.State.{
  Manager, PageState, Pages, mark_seen, update, get_page, unseen, get_deleted_pages,
}
use repodocs_go.State.Deleted.{get_page-set_page}
use repodocs_go.Strategies.Callbacks.{Outcome, failed}
use repodocs_go.Strategies.Crawler.Page.{
  Site, Options, Document, Response, is_wanted, is_unchanged, write_document, keep_document,
  on_manager, document, finish_response, is_page,
}
use repodocs_go.Strategies.Crawler.{
  gate_link, enter_link, count_response, Crawl, Event, gate, enter, respond, finish, fail_request,
  cancel, limit_reached, nth, finish_at, step, run, new_crawl_context,
}

unseen-get_page :
    (seen : List String) (url : String) (page : PageState) (pages : Pages)
    → contains seen url ≡ false
    → get_page url pages ≡ some page
    → Memᴰ page (unseen seen pages)
unfolding get_page
unseen-get_page seen url page [] new there = absurd cc
unseen-get_page seen url page ((u, p) ∷ pages) new there = elim (Bool-cases (str_eq u url)) [
  | inl same ↦
      let e : u ≡ url = (eq_iff u url).0 same in
      let p_is : some p ≡ some page = rw (get_page, same) at there in
      let page_is : page ≡ p = cc in rw (e, new) (Memᴰ.head page_is)
  | inr other ↦
      let later = unseen-get_page seen url page pages new (rw (get_page, other) at there) in
      elim (Bool-cases (contains seen u)) [
        | inl here ↦ rw here later
        | inr gone ↦ rw gone (Memᴰ.tail later)
      ]
]

module _ (s : Site) (opts : Options) (url : String) (page : PageState) where
  -- The record has the page of the URL, which was not seen.
  abbrev pub Unseen : Option Manager → Type 0
  Unseen none = true ≡ false
  Unseen (some m) =
      (m.disabled ≡ false)
      × (contains m.seen_urls url ≡ false)
      × (get_page url m.state.pages ≡ some page)

  mark-Unseen :
      (u : String) (m : Option Manager)
      → str_eq u url ≡ false
      → Unseen m
      → Unseen (on_manager (mark_seen u) m)
  unfolding mark_seen
  mark-Unseen u none other h = h
  mark-Unseen u (some m) other h = elim (Bool-cases (contains m.seen_urls u)) [
    | inl there ↦ rw there h
    | inr new ↦ rw new (h.0, ground (arith, other, h.1), h.2)
  ]

  update-Unseen :
      (u : String) (p : PageState) (m : Option Manager)
      → str_eq u url ≡ false
      → Unseen m
      → Unseen (on_manager (update u p) m)
  unfolding update
  update-Unseen u p none other h = h
  update-Unseen u p (some m) other (on, new, there) =
      rw on (refl, new, get_page-set_page u url p m.state.pages ∙ rw other there)

  write-Unseen :
      (u : String) (doc : Document) (m : Option Manager)
      → str_eq u url ≡ false
      → Unseen m
      → Unseen (write_document s opts u doc m).1
  unfolding write_document
  write-Unseen u doc m other h = elim (Bool-cases (is_nil (s.write u doc.content))) [
    | inl ok ↦ elim (Bool-cases (str_eq doc.content_hash "")) [
      | inl none_ ↦ rw (write_document, ok, none_) h
      | inr hashed ↦
          rw (write_document, ok, hashed)
            (update-Unseen u
              record {
                content_hash = doc.content_hash;
                fetched_at = s.now;
                file_path = s.file_path u;
              }
              m other h)
    ]
    | inr bad ↦ rw (write_document, bad) h
  ]

  keep-Unseen :
      (u : String) (doc : Document) (m : Option Manager)
      → str_eq u url ≡ false
      → Unseen m
      → Unseen (keep_document s opts u doc m).1
  unfolding keep_document
  keep-Unseen u doc m other h = elim (Bool-cases (is_unchanged u doc.content_hash m)) [
    | inl same ↦ rw (keep_document, same) h
    | inr changed ↦ elim (Bool-cases opts.dry_run) [
      | inl dry_ ↦ rw (keep_document, changed, dry_) h
      | inr wet ↦ rw (keep_document, changed, wet) (write-Unseen u doc m other h)
    ]
  ]

  documented-Unseen :
      (u : String) (m : Option Manager) (read : Error ⊎ Document)
      → str_eq u url ≡ false
      → Unseen m
      → Unseen
          (elim read as (λ x. Outcome × Option Manager) [
            | inl e ↦ (failed, m)
            | inr doc ↦ keep_document s opts u doc (on_manager (mark_seen u) m)
          ]).1
  documented-Unseen u m (inl e) other h = h
  documented-Unseen u m (inr doc) other h =
      keep-Unseen u doc (on_manager (mark_seen u) m) other (mark-Unseen u m other h)

  module _ (unforced : opts.force ≡ false) (there : s.exists url ≡ true) where
    finish-Unseen :
        (r : Response) (m : Option Manager) → Unseen m → Unseen (finish_response s opts r m).1
    unfolding finish_response
    finish-Unseen r m h = elim (Bool-cases (s.exists r.url)) [
      | inl stands ↦ rw (finish_response, unforced, stands) h
      | inr new ↦
          let other : str_eq r.url url ≡ false = elim (Bool-cases (str_eq r.url url)) [
            | inl same ↦ absurd (let e = ap s.exists ((eq_iff r.url url).0 same) in cc)
            | inr differs ↦ differs
          ] in
          rw (finish_response, unforced, new)
            (documented-Unseen r.url m (document s opts r) other h)
    ]

    finish_at-Unseen :
        (n : ℕ) (o : Option Response) (c : Crawl)
        → Unseen c.manager
        → Unseen (finish_at s opts n o c).manager
    unfolding finish_at
    finish_at-Unseen n none c h = h
    finish_at-Unseen n (some r) c h = finish-Unseen r c.manager h

    step-Unseen : (e : Event) (c : Crawl) → Unseen c.manager → Unseen (step s opts e c).manager
    unfolding step finish_at gate_link enter_link count_response
    step-Unseen (gate link) c h =
        elim (Bool-cases (is_wanted s opts link && not (limit_reached opts.limit c.processed))) [
          | inl yes_ ↦ rw yes_ h
          | inr no_ ↦ rw no_ h
        ]
    step-Unseen (enter link) c h =
        elim (Bool-cases (contains c.gated link && not (contains c.visited link))) [
          | inl yes_ ↦ rw yes_ h
          | inr no_ ↦ rw no_ h
        ]
    step-Unseen (respond r) c h =
        elim (Bool-cases
          (not c.cancelled && is_page r && not (limit_reached opts.limit c.processed))) [
            | inl yes_ ↦ rw yes_ h
            | inr no_ ↦ rw no_ h
          ]
    step-Unseen (finish n) c h = finish_at-Unseen n (nth n c.open_pages) c h
    step-Unseen fail_request c h = h
    step-Unseen cancel c h = h

    run-Unseen : (es : List Event) (c : Crawl) → Unseen c.manager → Unseen (run s opts es c).manager
    run-Unseen [] c h = h
    run-Unseen (e ∷ es) c h = run-Unseen es (step s opts e c) (step-Unseen e c h)

abbrev pub deleted_in : Option Manager → List PageState
deleted_in none = []
deleted_in (some m) = get_deleted_pages m

deleted-Unseen :
    (s : Site) (opts : Options) (url : String) (page : PageState) (m : Option Manager)
    → Unseen s opts url page m
    → Memᴰ page (deleted_in m)
unfolding get_deleted_pages
deleted-Unseen s opts url page none h = absurd cc
deleted-Unseen s opts url page (some m) (on, new, there) =
    rw on (unseen-get_page m.seen_urls url page m.state.pages new there)

-- A page of an earlier run whose file is still there is among the deleted pages after a crawl that does not
-- force new files, whatever the crawl does, this page's own response included: to prune after such a crawl
-- removes the file of every page that was not new.
pub run-existing_deleted :
    (s : Site) (opts : Options) (url : String) (page : PageState) (m : Manager) (es : List Event)
    → opts.force ≡ false
    → s.exists url ≡ true
    → m.disabled ≡ false
    → contains m.seen_urls url ≡ false
    → get_page url m.state.pages ≡ some page
    → Memᴰ page (deleted_in (run s opts es (new_crawl_context (some m))).manager)
run-existing_deleted s opts url page m es unforced there on new known =
    deleted-Unseen s opts url page (run s opts es (new_crawl_context (some m))).manager
      (run-Unseen s opts url page unforced there es (new_crawl_context (some m)) (on, new, known))
