-- ===== src/Renderer/Pool/Bounds.antt =====
-- internal/renderer/pool.go: how many pages there are, and where.
use repodocs_go.Base.{
  refl, positive_or-pos, ◌≢◌, ℤ, List, [], ◌∷◌, length-append, arith, false, ◌≡◌, ◌+◌, length, ◌≤◌,
  ◌<◌,
}
use repodocs_go.Renderer.Pool.{
  full, new_tab_pool, drain, shut_channel, shut, release, cancelled, receiving, putting, acquiring,
  receive_from, acquire_from, create, drained, was_put, received, acquired, close_channel, close,
  put, receive, acquire, System, Event, step, run, system,
}

pub record IsValid {P : Type 0} (s : System P) : Type 0 where
  pub max_tabs_pos : 0 < s.pool.max_tabs
  pub created_bounded : s.pool.created ≤ s.pool.max_tabs
  pub accounted :
      (length s.pool.active_tabs + s.held) + (s.releasing + (s.gone + s.panicked)) ≡ s.pool.created
  pub channel_after : s.pool.closed ≡ false → s.pool.channel_closed ≡ false
  pub closing_after : s.pool.closed ≡ false → s.closing ≡ 0
  pub nil_after : s.pool.channel_closed ≡ false → s.nil_pages ≡ 0
  pub panic_after : s.pool.channel_closed ≡ false → s.panicked ≡ 0
  pub gone_after : s.pool.closed ≡ false → s.gone ≡ 0

module _ {P : Type 0} where
  pub step-IsValid : (e : Event P) (s : System P) → IsValid s → IsValid (step e s)
  unfolding step acquire receive put close close_channel acquired received was_put drained create
      acquire_from receive_from
  step-IsValid (acquiring made) s v = ground arith
  step-IsValid receiving s v = ground arith
  step-IsValid cancelled s v = ground arith
  step-IsValid release s v = ground arith
  step-IsValid (putting p) s v = ground (arith, length-append s.pool.active_tabs (p ∷ []))
  step-IsValid shut s v = ground arith
  step-IsValid shut_channel s v = ground arith
  step-IsValid drain s v = ground arith

  pub run-IsValid : (es : List (Event P)) (s : System P) → IsValid s → IsValid (run es s)
  run-IsValid [] s v = v
  run-IsValid (e ∷ es) s v = run-IsValid es (step e s) (step-IsValid e s v)

  -- Whatever goroutines do with a new pool, and in whatever order their steps come, no more pages are
  -- created than `max_tabs`, and each is in the channel, held, in a `Release`, closed or lost to a panic.
  -- Before the pool is closed no page is closed, and before its channel is, nobody gets a nil page and
  -- no `Release` panics.
  pub system-run-IsValid : (max_tabs : ℤ) (es : List (Event P)) → IsValid (run es (system max_tabs))
  unfolding new_tab_pool
  system-run-IsValid max_tabs es =
      let pos = positive_or-pos 5 max_tabs (omega arith) in
      run-IsValid es (system max_tabs) (record {
        max_tabs_pos = pos;
        created_bounded = omega arith;
        accounted = refl;
        channel_after = λ _. refl;
        closing_after = λ _. refl;
        nil_after = λ _. refl;
        panic_after = λ _. refl;
        gone_after = λ _. refl;
      })

  room : (p : P) (s : System P) → IsValid s → s.releasing ≢ 0 → (put p s.pool).0 ≢ full
  unfolding put
  room p s v some_release = ground arith

  -- The branch of `Release` that finds the channel full, and closes the page, is never taken: a page
  -- that comes back always has room.
  pub room_for_release :
      (max_tabs : ℤ) (es : List (Event P)) (p : P)
      → (run es (system max_tabs)).releasing ≢ 0
      → (put p (run es (system max_tabs)).pool).0 ≢ full
  room_for_release max_tabs es p = room p _ (system-run-IsValid max_tabs es)

  release_step :
      (s : System P)
      → s.pool.closed ≡ false
      → s.held ≢ 0
      → ((step release s).releasing ≢ 0)
        × ((step release s).pool.closed ≡ false)
        × ((step release s).waiting ≡ s.waiting)
        × ((step release s).held + 1 ≡ s.held)
  unfolding step
  release_step s open_ some_held = ground arith

  put_step :
      (p : P) (s : System P)
      → IsValid s
      → s.pool.closed ≡ false
      → s.releasing ≢ 0
      → (length (step (putting p) s).pool.active_tabs ≢ 0)
        × ((step (putting p) s).waiting ≡ s.waiting)
        × ((step (putting p) s).held ≡ s.held)
  unfolding step put was_put
  put_step p s v open_ some_release = ground (arith, length-append s.pool.active_tabs (p ∷ []))

  receive_step :
      (s : System P)
      → length s.pool.active_tabs ≢ 0
      → s.waiting ≢ 0
      → ((step receiving s).waiting + 1 ≡ s.waiting) × ((step receiving s).held ≡ s.held + 1)
  unfolding step receive received receive_from
  receive_step s some_page some_waiting = ground arith

  serves :
      (p : P) (s : System P)
      → IsValid s
      → s.pool.closed ≡ false
      → s.held ≢ 0
      → s.waiting ≢ 0
      → ((step receiving (step (putting p) (step release s))).waiting + 1 ≡ s.waiting)
        × ((step receiving (step (putting p) (step release s))).held ≡ s.held)
  serves p s v open_ some_held some_waiting =
      let t = step release s in
      let (some_release, still_open, t_waiting, t_held) = release_step s open_ some_held in
      let (some_page, u_waiting, u_held) =
        put_step p t (step-IsValid release s v) still_open some_release in
      let (fewer, more) =
        receive_step (step (putting p) t) some_page
          (λ e. some_waiting (omega (arith, e, u_waiting, t_waiting))) in
      (omega (arith, fewer, u_waiting, t_waiting), omega (arith, more, u_held, t_held))

  -- While the pool is open, a `Release` lets an `Acquire` that waits have a page.
  pub release_serves :
      (max_tabs : ℤ) (es : List (Event P)) (p : P)
      → (run es (system max_tabs)).pool.closed ≡ false
      → (run es (system max_tabs)).held ≢ 0
      → (run es (system max_tabs)).waiting ≢ 0
      → ((step receiving (step (putting p) (step release (run es (system max_tabs))))).waiting + 1
          ≡ (run es (system max_tabs)).waiting)
        × ((step receiving (step (putting p) (step release (run es (system max_tabs))))).held
            ≡ (run es (system max_tabs)).held)
  release_serves max_tabs es p = serves p _ (system-run-IsValid max_tabs es)
