-- ===== src/Utils/Parallel/Invariant.antt =====
-- internal/utils/workerpool.go: what holds at every step of `ParallelForEach`.
use repodocs_go.Base.{
  none, ◌≢◌, false, true, refl, Option, zero, suc, if◌then◌else◌, ◌+◌, arith, [], some, ◌≡◌, ◌∷◌,
  Bool, ℕ, List, ℤ,
}
use repodocs_go.Utils.Parallel.{
  cancel, quit, close, is_queued, running, is_waiting, done, waiting, queued, finish, take,
  workers_for, take_at, submit_at, submit, is_running, fresh, finish_at, item_of, Slot, Pool, Event,
  step, run, start, count, put, slot_at,
}

module _ {T : Type 0} where
  abbrev pub items_of : List (Slot T) → List T
  items_of [] = []
  items_of (s ∷ ss) = item_of s ∷ items_of ss

  -- A slot that is replaced by one of the same item is counted as that one.
  pub count-put :
      (p : Slot T → Bool) (i : ℕ) (r s : Slot T) (ss : List (Slot T))
      → slot_at i ss ≡ some r
      → count p (put i s ss) + (if p r then 1 else 0) ≡ count p ss + (if p s then 1 else 0)
  unfolding count
  count-put p i r s [] h = cc
  count-put p zero r s (x ∷ ss) h = ground arith
  count-put p (suc i) r s (x ∷ ss) h = omega (arith, count-put p i r s ss h)

  items_of-put :
      (i : ℕ) (r s : Slot T) (ss : List (Slot T))
      → slot_at i ss ≡ some r
      → item_of s ≡ item_of r
      → items_of (put i s ss) ≡ items_of ss
  items_of-put i r s [] h e = cc
  items_of-put zero r s (x ∷ ss) h e = ground arith
  items_of-put (suc i) r s (x ∷ ss) h e = cc (items_of-put i r s ss h e)

-- The slots are those of the items; each worker runs a call, waits or is gone; and unless the context
-- is done, the channel is closed only after the last index, and a worker leaves only an empty one.
pub record IsValid {T : Type 0} (items : List T) (workers : ℕ) (p : Pool T) : Type 0 where
  pub same_items : items_of p.slots ≡ items
  pub staffed : count is_running p.slots + (p.idle + p.gone) ≡ workers
  pub all_submitted : p.closed ≡ true → p.cancelled ≡ false → count is_waiting p.slots ≡ 0
  pub all_taken :
      p.gone ≢ 0 → p.cancelled ≡ false → (p.closed ≡ true) × (count is_queued p.slots ≡ 0)

module _ {T : Type 0} (items : List T) (workers : ℕ) where
  submit_at-IsValid :
      (o : Option (Slot T)) (i : ℕ) (p : Pool T)
      → slot_at i p.slots ≡ o
      → IsValid items workers p
      → IsValid items workers (submit_at o i p)
  unfolding submit_at
  submit_at-IsValid none i p h v = v
  submit_at-IsValid (some (queued t)) i p h v = v
  submit_at-IsValid (some (running t)) i p h v = v
  submit_at-IsValid (some (done t)) i p h v = v
  submit_at-IsValid (some (waiting t)) i p h v = ground (
    arith,
    items_of-put i (waiting t) (queued t) p.slots h refl,
    count-put is_waiting i (waiting t) (queued t) p.slots h,
    count-put is_queued i (waiting t) (queued t) p.slots h,
    count-put is_running i (waiting t) (queued t) p.slots h,
  )

  take_at-IsValid :
      (o : Option (Slot T)) (i : ℕ) (p : Pool T)
      → slot_at i p.slots ≡ o
      → IsValid items workers p
      → IsValid items workers (take_at o i p)
  unfolding take_at
  take_at-IsValid none i p h v = v
  take_at-IsValid (some (waiting t)) i p h v = v
  take_at-IsValid (some (running t)) i p h v = v
  take_at-IsValid (some (done t)) i p h v = v
  take_at-IsValid (some (queued t)) i p h v = ground (
    arith,
    items_of-put i (queued t) (running t) p.slots h refl,
    count-put is_waiting i (queued t) (running t) p.slots h,
    count-put is_queued i (queued t) (running t) p.slots h,
    count-put is_running i (queued t) (running t) p.slots h,
  )

  finish_at-IsValid :
      (o : Option (Slot T)) (i : ℕ) (p : Pool T)
      → slot_at i p.slots ≡ o
      → IsValid items workers p
      → IsValid items workers (finish_at o i p)
  unfolding finish_at
  finish_at-IsValid none i p h v = v
  finish_at-IsValid (some (waiting t)) i p h v = v
  finish_at-IsValid (some (queued t)) i p h v = v
  finish_at-IsValid (some (done t)) i p h v = v
  finish_at-IsValid (some (running t)) i p h v = ground (
    arith,
    items_of-put i (running t) (done t) p.slots h refl,
    count-put is_waiting i (running t) (done t) p.slots h,
    count-put is_queued i (running t) (done t) p.slots h,
    count-put is_running i (running t) (done t) p.slots h,
  )

  pub step-IsValid :
      (e : Event) (p : Pool T) → IsValid items workers p → IsValid items workers (step e p)
  unfolding step
  step-IsValid (submit i) p v = submit_at-IsValid (slot_at i p.slots) i p refl v
  step-IsValid (take i) p v = take_at-IsValid (slot_at i p.slots) i p refl v
  step-IsValid (finish i) p v = finish_at-IsValid (slot_at i p.slots) i p refl v
  step-IsValid close p v = ground arith
  step-IsValid quit p v = ground arith
  step-IsValid cancel p v = ground arith

  pub run-IsValid :
      (es : List Event) (p : Pool T) → IsValid items workers p → IsValid items workers (run es p)
  run-IsValid [] p v = v
  run-IsValid (e ∷ es) p v = run-IsValid es (step e p) (step-IsValid e p v)

module _ {T : Type 0} where
  items_of-fresh : (items : List T) → items_of (fresh items) ≡ items
  items_of-fresh [] = refl
  items_of-fresh (t ∷ ts) = cc (items_of-fresh ts)

  running-fresh : (items : List T) → count is_running (fresh items) ≡ 0
  unfolding count
  running-fresh [] = refl
  running-fresh (t ∷ ts) = omega (arith, running-fresh ts)

  pub start-IsValid :
      (items : List T) (workers : ℤ)
      → IsValid items (workers_for items workers) (start items workers)
  unfolding start
  start-IsValid items workers = record {
    same_items = items_of-fresh items;
    staffed = omega (arith, running-fresh items);
    all_submitted = λ e. cc;
    all_taken = λ n. absurd (n refl);
  }

  pub start-run-IsValid :
      (items : List T) (workers : ℤ) (es : List Event)
      → IsValid items (workers_for items workers) (run es (start items workers))
  start-run-IsValid items workers es =
      run-IsValid items _ es (start items workers) (start-IsValid items workers)
