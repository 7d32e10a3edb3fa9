-- ===== src/State/Tests.antt =====
-- internal/state/manager.go: runs of a manager, and its theorems at concrete inputs.
use repodocs_go.Domain.Errors.{nil}
use repodocs_go.State.Persist.{load-save, ok, contents, save, load, Writing}
use repodocs_go.State.Json.{Codec, IsCodec, state_json}
use repodocs_go.Docsrs.Json.{Value, number}
use repodocs_go.State.Deleted.{update_unseen_deleted}
use repodocs_go.Base.{
  ℕ, Option, some, contains, length, ◌≤◌, none, [], ◌∷◌, refl, if◌then◌else◌, ◌≡◌, false,
}
use mathlib.Core.List.{Memᴰ}
use repodocs_go.State.{
  remove_deleted_from_state, get_page, PageState, Manager, new_manager, update, mark_seen,
  get_deleted_pages,
}
use repodocs_go.State.Prune.{refused, prune_deleted_files, prune_forgets}

abbrev page_a : PageState
page_a = record { content_hash = "h1"; fetched_at = 3; file_path = "docs/a.md" }

abbrev page_b : PageState
page_b = record { content_hash = "h2"; fetched_at = 4; file_path = "docs/b.md" }

abbrev fresh : Manager
fresh = new_manager "https://x.io" "sitemap" false 1

abbrev two_pages : Manager
two_pages = update "b" page_b (mark_seen "b" (update "a" page_a fresh))

-- "a" was written in this run by a strategy that marks nothing.
deleted_after_write : get_deleted_pages two_pages ≡ page_a ∷ []
unfolding new_manager update mark_seen get_deleted_pages
deleted_after_write = refl

refused_is_forgotten :
    prune_deleted_files (λ path w. (refused, w)) two_pages tt
    ≡ (0, update "b" page_b (mark_seen "b" fresh), tt)
unfolding new_manager update mark_seen prune_deleted_files get_deleted_pages
    remove_deleted_from_state
refused_is_forgotten = refl

on : two_pages.disabled ≡ false
unfolding new_manager update mark_seen
on = refl

fresh_on : fresh.disabled ≡ false
unfolding new_manager
fresh_on = refl

update_unseen_deleted_example : Memᴰ page_a (get_deleted_pages (update "a" page_a fresh))
unfolding new_manager
update_unseen_deleted_example = update_unseen_deleted "a" page_a fresh refl refl

abbrev fine : Writing
fine = record { marshalled = nil; made_directory = nil; wrote = nil }

abbrev number_of : Value → Option ℕ
number_of (number n) = some n
number_of v = none

-- Texts are the values themselves, and times are numbers.
abbrev plain : Codec Value
plain = record {
  print = λ v. v;
  parse = λ v. some v;
  time_json = λ t. number t;
  time_of = number_of;
  in_order = λ pages. pages;
}

plain-IsCodec : IsCodec plain
plain-IsCodec = record { reads = λ v. refl; times = λ t. refl; same_entries = λ url pages. refl }

abbrev saved : Manager
saved = update "a" page_a fresh

abbrev written : Value
written = state_json plain (record {
  version = 1;
  source_url = "https://x.io";
  strategy = "sitemap";
  last_sync = 9;
  pages = ("a", page_a) ∷ [];
})

load-save_example :
    let m' = (save plain 9 fine saved).1 in
    let (err, loaded) = load plain (contents written) fresh in
    (err ≡ ok)
    × (get_page "a" loaded.state.pages ≡ get_page "a" saved.state.pages)
    × (loaded.state.source_url ≡ saved.state.source_url)
    × (loaded.state.strategy ≡ saved.state.strategy)
    × (loaded.state.last_sync ≡ 9)
    × (save plain 10 fine m' ≡ (nil, m', none))
unfolding new_manager update save state_json
load-save_example =
    load-save plain plain-IsCodec 9 10 fine saved fresh written "a" refl refl refl refl

prune_forgets_example :
    (get_page "a" (prune_deleted_files (λ path w. (refused, w)) two_pages tt).1.state.pages
      ≡ (if contains two_pages.seen_urls "a" then get_page "a" two_pages.state.pages else none))
    × ((prune_deleted_files (λ path w. (refused, w)) two_pages tt).0
        ≤ length (get_deleted_pages two_pages))
prune_forgets_example = prune_forgets (λ path w. (refused, w)) "a" two_pages tt on
