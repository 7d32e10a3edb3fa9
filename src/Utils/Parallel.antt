-- ===== src/Utils/Parallel.antt =====
-- internal/utils/workerpool.go: `ParallelForEach`, as a machine whose steps are those of its goroutines
-- in any order. What a call of `fn` on an item returns is a function of the item. A queued index is
-- taken in any order here, of which the channel's is one.
pub mod Invariant
pub mod Refines
pub mod Finished
pub mod Progress
mod Tests
use Prim.Native.Nat.{min}
use repodocs_go.Base.{
  length, positive_or, ◌-◌, ◌&&◌, ◌==◌, zero, ◌||◌, ◌+◌, suc, some, none, [], ◌≡◌, ◌∷◌, true,
  if◌then◌else◌, false, Option, ℕ, Bool, List, ℤ,
}
use repodocs_go.Domain.Errors.{Error, nil, is_nil}

-- An index of `items`, from before it is sent to the channel to where its error is stored.
pub data Slot (T : Type 0) : Type 0 where
  waiting : T → Slot T
  queued : T → Slot T
  running : T → Slot T
  done : T → Slot T

pub record Pool (T : Type 0) : Type 0 where
  pub slots : List (Slot T)
  -- workers in the `select`, and workers that returned
  pub idle : ℕ
  pub gone : ℕ
  -- whether the channel is closed, and the context done
  pub closed : Bool
  pub cancelled : Bool
  -- the items whose calls returned, the latest first
  pub finished : List T

pub data Event : Type 0 where
  submit : ℕ → Event
  close : Event
  take : ℕ → Event
  finish : ℕ → Event
  quit : Event
  cancel : Event

module _ {T : Type 0} where
  abbrev pub fresh : List T → List (Slot T)
  fresh [] = []
  fresh (t ∷ ts) = waiting t ∷ fresh ts

  abbrev pub item_of : Slot T → T
  item_of (waiting t) = t
  item_of (queued t) = t
  item_of (running t) = t
  item_of (done t) = t

  abbrev pub is_waiting : Slot T → Bool
  is_waiting (waiting t) = true
  is_waiting _ = false

  abbrev pub is_queued : Slot T → Bool
  is_queued (queued t) = true
  is_queued _ = false

  abbrev pub is_running : Slot T → Bool
  is_running (running t) = true
  is_running _ = false

  -- How many slots pass a test.
  unfoldable pub count : (Slot T → Bool) → List (Slot T) → ℕ
  count p [] = 0
  count p (s ∷ ss) = (if p s then 1 else 0) + count p ss

  abbrev pub slot_at : ℕ → List (Slot T) → Option (Slot T)
  slot_at i [] = none
  slot_at zero (s ∷ ss) = some s
  slot_at (suc i) (s ∷ ss) = slot_at i ss

  abbrev pub put : ℕ → Slot T → List (Slot T) → List (Slot T)
  put i s [] = []
  put zero s (r ∷ rs) = s ∷ rs
  put (suc i) s (r ∷ rs) = r ∷ put i s rs

  -- `workers`, put within 1 and the number of items.
  abbrev pub workers_for : List T → ℤ → ℕ
  workers_for items workers = min (positive_or 1 workers) (length items)

  unfoldable pub start : List T → ℤ → Pool T
  start items workers = record {
    slots = fresh items;
    idle = workers_for items workers;
    gone = 0;
    closed = false;
    cancelled = false;
    finished = [];
  }

  -- `taskChan <- i`, by the caller
  submit_at : Option (Slot T) → ℕ → Pool T → Pool T
  submit_at (some (waiting t)) i p =
      if p.closed then p else record p { slots = put i (queued t) p.slots }
  submit_at _ i p = p

  -- `idx, ok := <-taskChan`, by a worker that then calls `fn`
  take_at : Option (Slot T) → ℕ → Pool T → Pool T
  take_at (some (queued t)) i p =
      if p.idle == 0 then p else record p { slots = put i (running t) p.slots; idle = p.idle - 1 }
  take_at _ i p = p

  -- `fn` returns, and its error is stored
  finish_at : Option (Slot T) → ℕ → Pool T → Pool T
  finish_at (some (running t)) i p = record p {
    slots = put i (done t) p.slots;
    idle = p.idle + 1;
    finished = t ∷ p.finished;
  }
  finish_at _ i p = p

  -- A step that cannot be made changes nothing. The channel is closed after the last index, or where
  -- the context is done; a worker returns where the context is done, or the channel closed and empty.
  unfoldable pub step : Event → Pool T → Pool T
  unfolding submit_at take_at finish_at
  step (submit i) p = submit_at (slot_at i p.slots) i p
  step close p =
      if p.cancelled || count is_waiting p.slots == 0 then record p { closed = true } else p
  step (take i) p = take_at (slot_at i p.slots) i p
  step (finish i) p = finish_at (slot_at i p.slots) i p
  step quit p =
      if p.idle == 0
      then p
      else if p.cancelled || (p.closed && count is_queued p.slots == 0)
      then record p { idle = p.idle - 1; gone = p.gone + 1 }
      else p
  step cancel p = record p { cancelled = true }

  abbrev pub run : List Event → Pool T → Pool T
  run [] p = p
  run (e ∷ es) p = run es (step e p)

  -- `wg.Wait()` returned: the channel is closed, and no worker is left.
  abbrev pub Returned : Pool T → Type 0
  Returned p = (p.closed ≡ true) × (p.idle ≡ 0) × (count is_running p.slots ≡ 0)

  module _ (fn : T → Error) where
    -- `errors[idx]`: nil where no call returned.
    abbrev pub error_of : Slot T → Error
    error_of (done t) = fn t
    error_of _ = nil

    abbrev pub errors_of : List (Slot T) → List Error
    errors_of [] = []
    errors_of (s ∷ ss) = error_of s ∷ errors_of ss

-- `FirstError`
abbrev pub first_error : List Error → Error
first_error [] = nil
first_error (e ∷ es) = if is_nil e then first_error es else e
