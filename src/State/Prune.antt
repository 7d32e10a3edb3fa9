-- ===== src/State/Prune.antt =====
-- internal/strategies/strategy.go: `PruneDeletedFiles`, which deletes the files of pages that were not
-- seen. What `os.Remove` does is a function of the world `W`.
use repodocs_go.Base.{
  contains, refl, inr, ◌⊎◌, inl, arith, length, [], ◌+◌, true, none, ◌≤◌, ◌∷◌, if◌then◌else◌, false,
  Bool, ◌≡◌, ℕ, List, String,
}
use repodocs_go.State.{Manager, PageState, get_deleted_pages, remove_deleted_from_state, get_page}
use repodocs_go.State.Deleted.{get_page-none_deleted, remove_deleted_lem}

-- `os.Remove`: done, `os.IsNotExist`, or any other error.
pub data Removal : Type 0 where
  removed absent refused : Removal

module _ {W : Type 0} (remove : String → W → Removal × W) where
  -- The loop over the deleted pages, with `pruned` so far.
  prune_from : List PageState → ℕ → W → ℕ × W
  prune_from [] pruned w = (pruned, w)
  prune_from (page ∷ pages) pruned w =
      let (outcome, w') = remove page.file_path w in
      prune_from pages (elim outcome [ refused ↦ pruned | _ ↦ pruned + 1 ]) w'

  abbrev none_deleted : List PageState → Bool
  none_deleted [] = true
  none_deleted (_ ∷ _) = false

  unfoldable pub prune_deleted_files : Manager → W → ℕ × Manager × W
  unfolding prune_from
  prune_deleted_files m w =
      let deleted = get_deleted_pages m in
      let (pruned, w') = prune_from deleted 0 w in
      if m.disabled
      then (0, m, w)
      else if none_deleted deleted
      then (0, m, w)
      else (pruned, remove_deleted_from_state m, w')

  prune_from-le :
      (pages : List PageState) (pruned : ℕ) (w : W)
      → (prune_from pages pruned w).0 ≤ pruned + length pages
  unfolding prune_from
  prune_from-le [] pruned w = omega arith
  prune_from-le (page ∷ pages) pruned w = ground (
    arith,
    prune_from-le pages pruned (remove page.file_path w).1,
    prune_from-le pages (pruned + 1) (remove page.file_path w).1,
  )

  none_deleted-cases :
      (pages : List PageState)
      → ((pages ≡ []) × (none_deleted pages ≡ true)) ⊎ (none_deleted pages ≡ false)
  none_deleted-cases [] = inl (refl, refl)
  none_deleted-cases (_ ∷ _) = inr refl

  -- Pruning, in a manager that is not disabled, forgets every page that was not seen, also one whose
  -- file `os.Remove` refused to delete, so that no later run deletes that file; it keeps every page
  -- that was seen, and counts no more files than there were deleted pages.
  pub prune_forgets :
      (url : String) (m : Manager) (w : W)
      → m.disabled ≡ false
      → (get_page url (prune_deleted_files m w).1.state.pages
          ≡ (if contains m.seen_urls url then get_page url m.state.pages else none))
        × ((prune_deleted_files m w).0 ≤ length (get_deleted_pages m))
  unfolding prune_deleted_files
  prune_forgets url m w on = elim (none_deleted-cases (get_deleted_pages m)) [
    | inl (same, none_left) ↦
        simp (on, none_left) (get_page-none_deleted url m on same, omega arith)
    | inr some_left ↦
        simp (on, some_left)
          ((remove_deleted_lem url m on).0, omega (arith, prune_from-le (get_deleted_pages m) 0 w))
  ]
