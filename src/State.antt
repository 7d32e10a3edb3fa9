-- ===== src/State.antt =====
-- internal/state/manager.go and models.go: the record of what a source's last run processed, and
-- `PruneDeletedFiles` of internal/strategies/strategy.go, its client. A Go map is an association list
-- that `set_page` keeps free of repeated keys; times are numbers. The file's path is left out, and its text
-- is that of a codec of JSON values.
pub mod Deleted
pub mod Json
pub mod Persist
pub mod Prune
mod Tests
use text.Mathlib.Text.{◌==◌ as str_eq}
use repodocs_go.Base.{
  contains, ℕ, ◌+◌, Bool, true, false, not, ◌&&◌, String, List, [], ◌∷◌, Option, none, some, length,
  if◌then◌else◌, ◌==◌, ℤ,
}

pub record PageState : Type 0 where
  pub content_hash : String
  pub fetched_at : ℕ
  pub file_path : String

abbrev pub Pages : Type 0
Pages = List (String × PageState)

pub record SyncState : Type 0 where
  pub version : ℕ
  pub source_url : String
  pub strategy : String
  pub last_sync : ℕ
  pub pages : Pages

abbrev pub state_version : ℕ
state_version = 1

unfoldable pub new_sync_state : String → String → ℕ → SyncState
new_sync_state source_url strategy now = record {
  version = state_version;
  source_url = source_url;
  strategy = strategy;
  last_sync = now;
  pages = [];
}

-- `page, exists := pages[url]`
unfoldable pub get_page : String → Pages → Option PageState
get_page url [] = none
get_page url ((u, page) ∷ pages) = if str_eq u url then some page else get_page url pages

-- `pages[url] = page`
unfoldable pub set_page : String → PageState → Pages → Pages
set_page url page [] = (url, page) ∷ []
set_page url page ((u, old) ∷ pages) =
    if str_eq u url then (u, page) ∷ pages else (u, old) ∷ set_page url page pages

pub record Manager : Type 0 where
  pub state : SyncState
  pub dirty : Bool
  pub disabled : Bool
  -- the keys of the sync.Map `seenURLs`
  pub seen_urls : List String

unfoldable pub new_manager : String → String → Bool → ℕ → Manager
unfolding new_sync_state
new_manager source_url strategy disabled now = record {
  state = new_sync_state source_url strategy now;
  dirty = false;
  disabled = disabled;
  seen_urls = [];
}

abbrev is_changed : String → Option PageState → Bool
is_changed content_hash none = true
is_changed content_hash (some page) = not (str_eq page.content_hash content_hash)

unfoldable pub should_process : String → String → Manager → Bool
unfolding get_page
should_process url content_hash m =
    if m.disabled then true else is_changed content_hash (get_page url m.state.pages)

unfoldable pub update : String → PageState → Manager → Manager
unfolding set_page
update url page m =
    let state = m.state in
    if m.disabled
    then m
    else record m { state = record state { pages = set_page url page state.pages }; dirty = true }

unfoldable pub mark_seen : String → Manager → Manager
mark_seen url m = if contains m.seen_urls url then m else record m { seen_urls = url ∷ m.seen_urls }

-- The loop of `GetDeletedPages` over the map, in its order.
abbrev pub unseen : List String → Pages → List PageState
unseen seen [] = []
unseen seen ((url, page) ∷ pages) =
    if contains seen url then unseen seen pages else page ∷ unseen seen pages

unfoldable pub get_deleted_pages : Manager → List PageState
get_deleted_pages m = if m.disabled then [] else unseen m.seen_urls m.state.pages

-- The loop of `RemoveDeletedFromState`.
abbrev pub keep_seen : List String → Pages → Pages
keep_seen seen [] = []
keep_seen seen ((url, page) ∷ pages) =
    if contains seen url then (url, page) ∷ keep_seen seen pages else keep_seen seen pages

abbrev pub any_unseen : List String → Pages → Bool
any_unseen seen [] = false
any_unseen seen ((url, page) ∷ pages) = if contains seen url then any_unseen seen pages else true

unfoldable pub remove_deleted_from_state : Manager → Manager
remove_deleted_from_state m =
    let state = m.state in
    if m.disabled then m else record m {
      state = record state { pages = keep_seen m.seen_urls state.pages };
      dirty = if any_unseen m.seen_urls state.pages then true else m.dirty;
    }
