-- ===== src/State/Deleted.antt =====
-- internal/state/manager.go: what the state says of a page, and which pages count as deleted.
use repodocs_go.Base.{
  contains, sym, ap, ◌∙◌, true, refl, arith, [], ◌∷◌, none, List, inr, inl, Bool-cases, some, not,
  if◌then◌else◌, false, ◌≡◌,
}
use text.Mathlib.Text.{◌==◌ as str_eq}
use text.Mathlib.TextEquality.{eq_iff}
use text.Mathlib.TextPositions.{eq_refl}
use mathlib.Core.List.{Memᴰ}
use repodocs_go.State.{
  String, PageState, Pages, Manager, get_page, set_page, should_process, update, mark_seen, unseen,
  get_deleted_pages, keep_seen, remove_deleted_from_state,
}

pub get_page-set_page :
    (url j : String) (page : PageState) (pages : Pages)
    → get_page j (set_page url page pages) ≡ (if str_eq url j then some page else get_page j pages)
unfolding get_page set_page
get_page-set_page url j page [] = refl
get_page-set_page url j page ((u, old) ∷ pages) =
    ground (arith, eq_iff url j, eq_iff u url, eq_iff u j, get_page-set_page url j page pages)

-- After `Update` of a page in a manager that is not disabled, that page is processed again exactly
-- when its content hash differs from the one stored, and what is said of any other page is unchanged.
pub should_process-update :
    (url j content_hash : String) (page : PageState) (m : Manager)
    → m.disabled ≡ false
    → should_process j content_hash (update url page m) ≡ (
        if str_eq url j
        then not (str_eq page.content_hash content_hash)
        else should_process j content_hash m)
unfolding should_process update
should_process-update url j content_hash page m on = elim (Bool-cases (str_eq url j)) [
  | inl same ↦ rw (on, same, get_page-set_page url j page m.state.pages) (rw same)
  | inr other ↦ rw (on, other, get_page-set_page url j page m.state.pages) (rw other)
]

get_page-keep_seen :
    (seen : List String) (url : String) (pages : Pages)
    → get_page url (keep_seen seen pages) ≡ (if contains seen url then get_page url pages else none)
unfolding get_page
get_page-keep_seen seen url [] = ground arith
get_page-keep_seen seen url ((u, page) ∷ pages) = elim (Bool-cases (str_eq u url)) [
  | inl same ↦
      let e : u ≡ url = (eq_iff u url).0 same in
      elim (Bool-cases (contains seen url)) [
        | inl here ↦ rw (e, here, eq_refl url) refl
        | inr gone ↦ rw (e, gone, get_page-keep_seen seen url pages, gone) refl
      ]
  | inr other ↦ ground (arith, other, get_page-keep_seen seen url pages)
]

unseen-keep_seen : (seen : List String) (pages : Pages) → unseen seen (keep_seen seen pages) ≡ []
unseen-keep_seen seen [] = refl
unseen-keep_seen seen ((u, page) ∷ pages) = elim (Bool-cases (contains seen u)) [
  | inl here ↦ rw (here, here) (unseen-keep_seen seen pages)
  | inr gone ↦ rw gone (unseen-keep_seen seen pages)
]

-- `RemoveDeletedFromState`, in a manager that is not disabled, keeps just the pages that were seen,
-- as they are, and leaves none that counts as deleted.
pub remove_deleted_lem :
    (url : String) (m : Manager)
    → m.disabled ≡ false
    → (get_page url (remove_deleted_from_state m).state.pages
        ≡ (if contains m.seen_urls url then get_page url m.state.pages else none))
      × (get_deleted_pages (remove_deleted_from_state m) ≡ [])
unfolding remove_deleted_from_state get_deleted_pages
remove_deleted_lem url m on = (
  rw on (get_page-keep_seen m.seen_urls url m.state.pages),
  rw on (unseen-keep_seen m.seen_urls m.state.pages),
)

keep_seen_all :
    (seen : List String) (pages : Pages) → unseen seen pages ≡ [] → keep_seen seen pages ≡ pages
keep_seen_all seen [] h = refl
keep_seen_all seen ((u, page) ∷ pages) h = elim (Bool-cases (contains seen u)) [
  | inl here ↦ rw (here, keep_seen_all seen pages (rw here at h)) refl
  | inr gone ↦ let h' : page ∷ unseen seen pages ≡ [] = rw gone at h in cc
]

-- Where nothing counts as deleted, pruning would keep all there is.
pub get_page-none_deleted :
    (url : String) (m : Manager)
    → m.disabled ≡ false
    → get_deleted_pages m ≡ []
    → get_page url m.state.pages
      ≡ (if contains m.seen_urls url then get_page url m.state.pages else none)
unfolding get_deleted_pages
get_page-none_deleted url m on h =
    let same = keep_seen_all m.seen_urls m.state.pages (rw on at h) in
    ap (get_page url) (sym same) ∙ get_page-keep_seen m.seen_urls url m.state.pages

unseen-set_page :
    (seen : List String) (url : String) (page : PageState) (pages : Pages)
    → contains seen url ≡ false
    → Memᴰ page (unseen seen (set_page url page pages))
unfolding set_page
unseen-set_page seen url page [] h = rw h (Memᴰ.head refl)
unseen-set_page seen url page ((u, old) ∷ pages) h = elim (Bool-cases (str_eq u url)) [
  | inl same ↦ let e : u ≡ url = (eq_iff u url).0 same in rw (same, e, h) (Memᴰ.head refl)
  | inr other ↦ elim (Bool-cases (contains seen u)) [
    | inl here ↦ rw (other, here) (unseen-set_page seen url page pages h)
    | inr gone ↦ rw (other, gone) (Memᴰ.tail (unseen-set_page seen url page pages h))
  ]
]

-- A page that `Update` stored in this very run counts as deleted unless `MarkSeen` was called for it:
-- `Update` does not mark it.
pub update_unseen_deleted :
    (url : String) (page : PageState) (m : Manager)
    → m.disabled ≡ false
    → contains m.seen_urls url ≡ false
    → Memᴰ page (get_deleted_pages (update url page m))
unfolding update get_deleted_pages
update_unseen_deleted url page m on h = rw on (unseen-set_page m.seen_urls url page m.state.pages h)

update_kept :
    (url : String) (page : PageState) (m : Manager)
    → m.disabled ≡ false
    → contains m.seen_urls url ≡ true
    → get_page url (remove_deleted_from_state (update url page m)).state.pages ≡ some page
unfolding update remove_deleted_from_state
update_kept url page m on here =
    rw
      (
        on,
        get_page-keep_seen m.seen_urls url (set_page url page m.state.pages),
        here,
        get_page-set_page url url page m.state.pages,
        eq_refl url,
      )
      refl

mark_seen_marks :
    (url : String) (m : Manager)
    → (contains (mark_seen url m).seen_urls url ≡ true) × ((mark_seen url m).disabled ≡ m.disabled)
unfolding mark_seen
mark_seen_marks url m = elim (Bool-cases (contains m.seen_urls url)) [
  | inl here ↦ rw here (here, refl)
  | inr new ↦ rw (new, eq_refl url) (refl, refl)
]

-- A page that is marked seen and then stored by `Update`, in a manager that is not disabled, is kept
-- by the pruning that follows, with what was stored.
pub mark_seen_kept :
    (url : String) (page : PageState) (m : Manager)
    → m.disabled ≡ false
    → get_page url (remove_deleted_from_state (update url page (mark_seen url m))).state.pages
      ≡ some page
mark_seen_kept url page m on =
    let (marks, same) = mark_seen_marks url m in
    update_kept url page (mark_seen url m) (same ∙ on) marks
