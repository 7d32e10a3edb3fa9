-- ===== src/Renderer/Pool.antt =====
-- internal/renderer/pool.go. A page is a `P`; what creating one gave is an argument. What a method does
-- under the lock, and each of its channel operations after it, is a step of its own, so that the
-- methods of several goroutines interleave as the source lets them.
mod Bounds
mod Closing
mod Tests
use repodocs_go.Base.{
  ℕ, ◌+◌, ◌-◌, Bool, true, false, List, [], ◌∷◌, ◌++◌, Option, none, some, length, ltb, leb,
  if◌then◌else◌, ◌==◌, ℤ, positive_or, ◌⊎◌, inl, inr,
}
use repodocs_go.Domain.Errors.{Error, message}

-- The buffered channel `activeTabs` is a queue, with room for `max_tabs` pages.
pub record TabPool (P : Type 0) : Type 0 where
  pub max_tabs : ℕ
  pub active_tabs : List P
  pub channel_closed : Bool
  pub closed : Bool
  pub created : ℕ

-- What `Acquire` has when it gives the lock back: a page, an error, or it has to wait.
pub data Acquired (P : Type 0) : Type 0 where
  got : P → Acquired P
  failed : Error → Acquired P
  waits : Acquired P

-- What a receive from the channel gave: a page, or from one that is closed and empty the nil page.
pub data Received (P : Type 0) : Type 0 where
  page : P → Received P
  nil_page : Received P
  blocked : Received P

-- What the send to the channel did, at the end of `Release`.
pub data Put : Type 0 where
  returned full panics : Put

module _ {P : Type 0} where
  unfoldable pub new_tab_pool : ℤ → TabPool P
  new_tab_pool max_tabs = record {
    max_tabs = positive_or 5 max_tabs;
    active_tabs = [];
    channel_closed = false;
    closed = false;
    created = 0;
  }

  -- `if p.created < p.maxTabs`, with what `StealthPage` gives
  create : Error ⊎ P → TabPool P → Acquired P × TabPool P
  create (inl err) pool =
      if ltb pool.created pool.max_tabs then (failed err, pool) else (waits, pool)
  create (inr p) pool =
      if ltb pool.created pool.max_tabs
      then (got p, record pool { created = pool.created + 1 })
      else (waits, pool)

  -- The `select` under the lock.
  acquire_from : List P → Error ⊎ P → TabPool P → Acquired P × TabPool P
  unfolding create
  acquire_from [] made pool = create made pool
  acquire_from (p ∷ ps) made pool = (got p, record pool { active_tabs = ps })

  -- `Acquire` up to where it gives the lock back.
  unfoldable pub acquire : Error ⊎ P → TabPool P → Acquired P × TabPool P
  unfolding acquire_from
  acquire made pool =
      if pool.closed
      then (failed (message "pool is closed"), pool)
      else acquire_from pool.active_tabs made pool

  receive_from : List P → TabPool P → Received P × TabPool P
  receive_from [] pool = (if pool.channel_closed then nil_page else blocked, pool)
  receive_from (p ∷ ps) pool = (page p, record pool { active_tabs = ps })

  -- `<-p.activeTabs`, in the second `select` of `Acquire` and in the loop of `Close`.
  unfoldable pub receive : TabPool P → Received P × TabPool P
  unfolding receive_from
  receive pool = receive_from pool.active_tabs pool

  -- The last `select` of `Release`.
  unfoldable pub put : P → TabPool P → Put × TabPool P
  put p pool =
      if pool.channel_closed
      then (panics, pool)
      else if ltb (length pool.active_tabs) pool.max_tabs
      then (returned, record pool { active_tabs = pool.active_tabs ++ (p ∷ []) })
      else (full, pool)

  -- The part of `Close` under the lock: whether it goes on.
  unfoldable pub close : TabPool P → Bool × TabPool P
  close pool = if pool.closed then (false, pool) else (true, record pool { closed = true })

  -- `close(p.activeTabs)`
  unfoldable pub close_channel : TabPool P → TabPool P
  close_channel pool = record pool { channel_closed = true }

-- The pool with those who use it: pages that a caller holds, pages in a `Release` that found the pool
-- open, calls of `Acquire` that wait, calls of `Close` about to close the channel, pages that were
-- closed, nil pages that were handed out, and calls of `Release` that panicked.
pub record System (P : Type 0) : Type 0 where
  pub pool : TabPool P
  pub held : ℕ
  pub releasing : ℕ
  pub waiting : ℕ
  pub closing : ℕ
  pub gone : ℕ
  pub nil_pages : ℕ
  pub panicked : ℕ

-- The steps of the methods; `drain` is one round of the loop of `Close`.
pub data Event (P : Type 0) : Type 0 where
  acquiring : Error ⊎ P → Event P
  receiving : Event P
  cancelled : Event P
  release : Event P
  putting : P → Event P
  shut : Event P
  shut_channel : Event P
  drain : Event P

module _ {P : Type 0} where
  abbrev pub system : ℤ → System P
  unfolding new_tab_pool
  system max_tabs = record {
    pool = new_tab_pool max_tabs;
    held = 0;
    releasing = 0;
    waiting = 0;
    closing = 0;
    gone = 0;
    nil_pages = 0;
    panicked = 0;
  }

  acquired : Acquired P × TabPool P → System P → System P
  acquired (got _, pool) s = record s { pool = pool; held = s.held + 1 }
  acquired (failed _, pool) s = record s { pool = pool }
  acquired (waits, pool) s = record s { pool = pool; waiting = s.waiting + 1 }

  received : Received P × TabPool P → System P → System P
  received (page _, pool) s = record s { pool = pool; waiting = s.waiting - 1; held = s.held + 1 }
  received (nil_page, pool) s = record s {
    pool = pool;
    waiting = s.waiting - 1;
    nil_pages = s.nil_pages + 1;
  }
  received (blocked, pool) s = s

  was_put : Put × TabPool P → System P → System P
  was_put (returned, pool) s = record s { pool = pool; releasing = s.releasing - 1 }
  was_put (full, pool) s = record s { pool = pool; releasing = s.releasing - 1; gone = s.gone + 1 }
  was_put (panics, pool) s = record s {
    pool = pool;
    releasing = s.releasing - 1;
    panicked = s.panicked + 1;
  }

  drained : Received P × TabPool P → System P → System P
  drained (page _, pool) s = record s { pool = pool; gone = s.gone + 1 }
  drained (nil_page, pool) s = s
  drained (blocked, pool) s = s

  -- A step that nobody can make changes nothing; in particular only a page that is held is released.
  unfoldable pub step : Event P → System P → System P
  unfolding acquire receive put close close_channel acquired received was_put drained
  step (acquiring made) s = acquired (acquire made s.pool) s
  step receiving s = if s.waiting == 0 then s else received (receive s.pool) s
  step cancelled s = record s { waiting = s.waiting - 1 }
  step release s =
      if s.held == 0
      then s
      else if s.pool.closed
      then record s { held = s.held - 1; gone = s.gone + 1 }
      else record s { held = s.held - 1; releasing = s.releasing + 1 }
  step (putting p) s = if s.releasing == 0 then s else was_put (put p s.pool) s
  step shut s =
      let (goes_on, pool) = close s.pool in
      if goes_on then record s { pool = pool; closing = s.closing + 1 } else s
  step shut_channel s =
      if s.closing == 0
      then s
      else record s { pool = close_channel s.pool; closing = s.closing - 1 }
  step drain s = if s.pool.channel_closed then drained (receive s.pool) s else s

  abbrev pub run : List (Event P) → System P → System P
  run [] s = s
  run (e ∷ es) s = run es (step e s)
