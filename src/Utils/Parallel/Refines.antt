-- ===== src/Utils/Parallel/Refines.antt =====
-- internal/utils/workerpool.go: what `ParallelForEach` returns.
use repodocs_go.Base.{
  Bool, ap, ◌∙◌, ◌≢◌, arith, refl, positive_or-pos, length, ◌∷◌, positive_or, map, ◌≤◌, false, [],
  ◌≡◌, List, ℤ,
}
use repodocs_go.Domain.Errors.{Error}
use repodocs_go.Utils.Parallel.{
  done, running, queued, waiting, is_queued, is_waiting, is_running, Slot, Pool, Event, run, start,
  count, Returned, errors_of, workers_for,
}
use repodocs_go.Utils.Parallel.Invariant.{IsValid, items_of, start-run-IsValid}

module _ {T : Type 0} where
  no_items : (q : Slot T → Bool) (ss : List (Slot T)) → items_of ss ≡ [] → count q ss ≡ 0
  unfolding count
  no_items q [] h = refl
  no_items q (s ∷ ss) h = cc

  -- A return with the context alive leaves no slot that is not done.
  pub returned-done :
      (items : List T) (workers : ℤ) (p : Pool T)
      → IsValid items (workers_for items workers) p
      → Returned p
      → p.cancelled ≡ false
      → (count is_waiting p.slots ≡ 0)
        × (count is_queued p.slots ≡ 0)
        × (count is_running p.slots ≡ 0)
  returned-done [] workers p v r live = (
    no_items is_waiting p.slots v.same_items,
    no_items is_queued p.slots v.same_items,
    no_items is_running p.slots v.same_items,
  )
  returned-done (t ∷ ts) workers p v (closed_, idle_, running_) live =
      let staff = v.staffed in
      let pos_workers = positive_or-pos 1 workers (omega arith) in
      let some_gone : p.gone ≢ 0 =
        λ none_gone. omega (arith, staff, none_gone, idle_, running_, pos_workers) in
      (v.all_submitted closed_ live, (v.all_taken some_gone live).1, running_)

module _ {T : Type 0} (fn : T → Error) where
  all_done :
      (ss : List (Slot T))
      → count is_waiting ss ≡ 0
      → count is_queued ss ≡ 0
      → count is_running ss ≡ 0
      → errors_of fn ss ≡ map fn (items_of ss)
  unfolding count
  all_done [] w q r = refl
  all_done (waiting t ∷ ss) w q r = absurd (omega (arith, w))
  all_done (queued t ∷ ss) w q r = absurd (omega (arith, q))
  all_done (running t ∷ ss) w q r = absurd (omega (arith, r))
  all_done (done t ∷ ss) w q r =
      cc (all_done ss (omega (arith, w)) (omega (arith, q)) (omega (arith, r)))

  returned_errors :
      (items : List T) (workers : ℤ) (p : Pool T)
      → IsValid items (workers_for items workers) p
      → Returned p
      → p.cancelled ≡ false
      → errors_of fn p.slots ≡ map fn items
  returned_errors items workers p v r live =
      let (none_waiting, none_queued, none_running) = returned-done items workers p v r live in
      all_done p.slots none_waiting none_queued none_running ∙ ap (map fn) v.same_items

  -- When `ParallelForEach` returns and its context was not done meanwhile, it has called `fn` on every
  -- item, and what it returns is what a sequential loop over the items would: each item's error, in
  -- their order, whatever the number of workers and however their steps interleaved.
  pub parallel-map :
      (items : List T) (workers : ℤ) (es : List Event)
      → Returned (run es (start items workers))
      → (run es (start items workers)).cancelled ≡ false
      → errors_of fn (run es (start items workers)).slots ≡ map fn items
  parallel-map items workers es =
      returned_errors items workers _ (start-run-IsValid items workers es)

module _ {T : Type 0} where
  -- At no time are there more calls of `fn` than workers asked for, and one if none were; nor more
  -- than items.
  pub running-le-workers :
      (items : List T) (workers : ℤ) (es : List Event)
      → (count is_running (run es (start items workers)).slots ≤ positive_or 1 workers)
        × (count is_running (run es (start items workers)).slots ≤ length items)
  running-le-workers items workers es =
      let v = start-run-IsValid items workers es in
      let staff = v.staffed in (omega (arith, staff), omega (arith, staff))
