-- ===== src/Renderer/Pool/Tests.antt =====
-- Runs of internal/renderer/pool.go.
use repodocs_go.Renderer.Pool.Closing.{close_panics, close_nil_page}
use repodocs_go.Renderer.Pool.Bounds.{system-run-IsValid, IsValid}
use repodocs_go.Base.{refl, ◌≡◌, arith, [], ◌∷◌, inr, pos, List, ℕ}
use repodocs_go.Renderer.Pool.{
  shut, shut_channel, release, receiving, receive, putting, put, new_tab_pool, acquiring, acquire,
  Event, step, run, system,
}

abbrev one_waiting : List (Event ℕ)
one_waiting = acquiring (inr 7) ∷ acquiring (inr 8) ∷ []

abbrev one_coming_back : List (Event ℕ)
one_coming_back = acquiring (inr 7) ∷ release ∷ []

reuse_test :
    (run {P = ℕ}
      (acquiring (inr 7) ∷ release ∷ putting 7 ∷ acquiring (inr 8) ∷ [])
      (system (pos 2))).pool.created
    ≡ 1
unfolding step acquire put receive new_tab_pool
reuse_test = refl

system-run-IsValid_example : IsValid (run one_waiting (system (pos 1)))
system-run-IsValid_example = system-run-IsValid (pos 1) one_waiting

close_nil_page_example :
    (step receiving (step shut_channel (step shut (run one_waiting (system (pos 1)))))).nil_pages
    ≡ 1
unfolding step acquire new_tab_pool
close_nil_page_example = close_nil_page (pos 1) one_waiting refl refl (omega arith)

close_panics_example :
    (step
      (putting 7)
      (step shut_channel (step shut (run one_coming_back (system (pos 1)))))).panicked
    ≡ 1
unfolding step acquire new_tab_pool
close_panics_example = close_panics (pos 1) one_coming_back 7 refl (omega arith)
