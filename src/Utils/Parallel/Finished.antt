-- ===== src/Utils/Parallel/Finished.antt =====
-- internal/utils/workerpool.go: the calls that returned, told from the slots.
use repodocs_go.Base.{
  none, ◌+◌, some, refl, if◌then◌else◌, false, arith, [], Option, ◌≡◌, ◌∷◌, Bool, ℕ, List, ℤ,
}
use repodocs_go.Utils.Parallel.{
  cancel, running, quit, waiting, queued, close, is_running, finish, take, is_queued, take_at,
  submit_at, submit, is_waiting, fresh, finish_at, done, Slot, Pool, Event, step, run, start, count,
  slot_at,
}
use repodocs_go.Utils.Parallel.Invariant.{items_of, count-put}

module _ {T : Type 0} (q : T → Bool) where
  unfoldable pub count_items : List T → ℕ
  count_items [] = 0
  count_items (t ∷ ts) = (if q t then 1 else 0) + count_items ts

  abbrev pub done_with : Slot T → Bool
  done_with (done t) = q t
  done_with _ = false

  abbrev Tallies : Pool T → Type 0
  Tallies p = count done_with p.slots ≡ count_items p.finished

  submit_at-Tallies :
      (o : Option (Slot T)) (i : ℕ) (p : Pool T)
      → slot_at i p.slots ≡ o
      → Tallies p
      → Tallies (submit_at o i p)
  unfolding submit_at
  submit_at-Tallies none i p h v = v
  submit_at-Tallies (some (queued t)) i p h v = v
  submit_at-Tallies (some (running t)) i p h v = v
  submit_at-Tallies (some (done t)) i p h v = v
  submit_at-Tallies (some (waiting t)) i p h v =
      ground (arith, count-put done_with i (waiting t) (queued t) p.slots h)

  take_at-Tallies :
      (o : Option (Slot T)) (i : ℕ) (p : Pool T)
      → slot_at i p.slots ≡ o
      → Tallies p
      → Tallies (take_at o i p)
  unfolding take_at
  take_at-Tallies none i p h v = v
  take_at-Tallies (some (waiting t)) i p h v = v
  take_at-Tallies (some (running t)) i p h v = v
  take_at-Tallies (some (done t)) i p h v = v
  take_at-Tallies (some (queued t)) i p h v =
      ground (arith, count-put done_with i (queued t) (running t) p.slots h)

  finish_at-Tallies :
      (o : Option (Slot T)) (i : ℕ) (p : Pool T)
      → slot_at i p.slots ≡ o
      → Tallies p
      → Tallies (finish_at o i p)
  unfolding finish_at count_items
  finish_at-Tallies none i p h v = v
  finish_at-Tallies (some (waiting t)) i p h v = v
  finish_at-Tallies (some (queued t)) i p h v = v
  finish_at-Tallies (some (done t)) i p h v = v
  finish_at-Tallies (some (running t)) i p h v =
      omega (arith, v, count-put done_with i (running t) (done t) p.slots h)

  step-Tallies : (e : Event) (p : Pool T) → Tallies p → Tallies (step e p)
  unfolding step
  step-Tallies (submit i) p v = submit_at-Tallies (slot_at i p.slots) i p refl v
  step-Tallies (take i) p v = take_at-Tallies (slot_at i p.slots) i p refl v
  step-Tallies (finish i) p v = finish_at-Tallies (slot_at i p.slots) i p refl v
  step-Tallies close p v = ground arith
  step-Tallies quit p v = ground arith
  step-Tallies cancel p v = v

  run-Tallies : (es : List Event) (p : Pool T) → Tallies p → Tallies (run es p)
  run-Tallies [] p v = v
  run-Tallies (e ∷ es) p v = run-Tallies es (step e p) (step-Tallies e p v)

  fresh-Tallies : (items : List T) → count done_with (fresh items) ≡ 0
  unfolding count
  fresh-Tallies [] = refl
  fresh-Tallies (t ∷ ts) = omega (arith, fresh-Tallies ts)

  -- The calls that returned are those of the slots that are done, as many of each kind.
  pub start-run-Tallies :
      (items : List T) (workers : ℤ) (es : List Event)
      → count done_with (run es (start items workers)).slots
        ≡ count_items (run es (start items workers)).finished
  unfolding start count_items
  start-run-Tallies items workers es = run-Tallies es (start items workers) (fresh-Tallies items)

  -- Where every slot is done, they are those of all the items.
  pub done-items :
      (ss : List (Slot T))
      → count is_waiting ss ≡ 0
      → count is_queued ss ≡ 0
      → count is_running ss ≡ 0
      → count done_with ss ≡ count_items (items_of ss)
  unfolding count count_items
  done-items [] w k r = refl
  done-items (waiting t ∷ ss) w k r = absurd (omega (arith, w))
  done-items (queued t ∷ ss) w k r = absurd (omega (arith, k))
  done-items (running t ∷ ss) w k r = absurd (omega (arith, r))
  done-items (done t ∷ ss) w k r =
      omega (arith, done-items ss (omega (arith, w)) (omega (arith, k)) (omega (arith, r)))
