-- ===== src/Renderer/Pool/Closing.antt =====
-- internal/renderer/pool.go: what `Close` does to the calls that are under way.
use repodocs_go.Renderer.Pool.Bounds.{system-run-IsValid, IsValid}
use repodocs_go.Base.{arith, ◌≢◌, [], false, ◌≡◌, List, ℤ}
use repodocs_go.Renderer.Pool.{
  shut, shut_channel, receiving, putting, receive_from, was_put, received, close_channel, close,
  receive, put, System, Event, step, run, system,
}

module _ {P : Type 0} where
  nil_for_waiter :
      (s : System P)
      → IsValid s
      → s.pool.closed ≡ false
      → s.pool.active_tabs ≡ []
      → s.waiting ≢ 0
      → (step receiving (step shut_channel (step shut s))).nil_pages ≡ 1
  unfolding step receive close close_channel received receive_from
  nil_for_waiter s v open_ idle some_waiting = ground arith

  panic_for_release :
      (p : P) (s : System P)
      → IsValid s
      → s.pool.closed ≡ false
      → s.releasing ≢ 0
      → (step (putting p) (step shut_channel (step shut s))).panicked ≡ 1
  unfolding step put close close_channel was_put
  panic_for_release p s v open_ some_release = ground arith

  -- When `Close` closes an open pool that has no page left in its channel, an `Acquire` that waits
  -- returns a nil page with no error.
  pub close_nil_page :
      (max_tabs : ℤ) (es : List (Event P))
      → (run es (system max_tabs)).pool.closed ≡ false
      → (run es (system max_tabs)).pool.active_tabs ≡ []
      → (run es (system max_tabs)).waiting ≢ 0
      → (step receiving (step shut_channel (step shut (run es (system max_tabs))))).nil_pages ≡ 1
  close_nil_page max_tabs es = nil_for_waiter _ (system-run-IsValid max_tabs es)

  -- When `Close` closes an open pool between the check of a `Release` and its send, that send panics.
  pub close_panics :
      (max_tabs : ℤ) (es : List (Event P)) (p : P)
      → (run es (system max_tabs)).pool.closed ≡ false
      → (run es (system max_tabs)).releasing ≢ 0
      → (step (putting p) (step shut_channel (step shut (run es (system max_tabs))))).panicked ≡ 1
  close_panics max_tabs es p = panic_for_release p _ (system-run-IsValid max_tabs es)
