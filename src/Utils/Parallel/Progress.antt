-- ===== src/Utils/Parallel/Progress.antt =====
-- internal/utils/workerpool.go: `ParallelForEach` comes to an end.
use repodocs_go.Base.{
  zero, ◌&&◌, suc, [], ◌∷◌, sym, length, ◌≤◌, ◌||◌, Bool, ◌==◌, refl, if◌then◌else◌, none,
  Bool-cases, ◌≢◌, true, inr, false, arith, ◌<◌, ◌+◌, inl, ◌⊎◌, some, Option, ◌≡◌, ◌*◌, ℕ, List,
}
use repodocs_go.Utils.Parallel.{
  cancel, quit, is_running, close, is_queued, done, waiting, running, queued, finish, take,
  is_waiting, take_at, submit_at, submit, finish_at, Slot, Pool, Event, step, run, count, Returned,
  slot_at,
}
use repodocs_go.Utils.Parallel.Invariant.{count-put}

-- What is left to do.
abbrev pub measure : {T : Type 0} → Pool T → ℕ
measure p =
    4 * count is_waiting p.slots
    + 3 * count is_queued p.slots
    + 2 * count is_running p.slots
    + p.idle
    + (if p.closed then 0 else 1)

module _ {T : Type 0} where
  submit-lt :
      (t : T) (i : ℕ) (p : Pool T)
      → slot_at i p.slots ≡ some (waiting t)
      → p.closed ≡ false
      → measure (submit_at (some (waiting t)) i p) < measure p
  unfolding submit_at
  submit-lt t i p h open_ = ground (
    arith,
    count-put is_waiting i (waiting t) (queued t) p.slots h,
    count-put is_queued i (waiting t) (queued t) p.slots h,
    count-put is_running i (waiting t) (queued t) p.slots h,
  )

  take-lt :
      (t : T) (i : ℕ) (p : Pool T)
      → slot_at i p.slots ≡ some (queued t)
      → p.idle ≢ 0
      → measure (take_at (some (queued t)) i p) < measure p
  unfolding take_at
  take-lt t i p h some_idle = ground (
    arith,
    count-put is_waiting i (queued t) (running t) p.slots h,
    count-put is_queued i (queued t) (running t) p.slots h,
    count-put is_running i (queued t) (running t) p.slots h,
  )

  finish-lt :
      (t : T) (i : ℕ) (p : Pool T)
      → slot_at i p.slots ≡ some (running t)
      → measure (finish_at (some (running t)) i p) < measure p
  unfolding finish_at
  finish-lt t i p h = ground (
    arith,
    count-put is_waiting i (running t) (done t) p.slots h,
    count-put is_queued i (running t) (done t) p.slots h,
    count-put is_running i (running t) (done t) p.slots h,
  )

  -- A step that changes nothing, one that leaves less to do, or the context's being done.
  abbrev pub Spent : Pool T → Pool T → Type 0
  Spent p q = (q ≡ p) ⊎ (measure q < measure p) ⊎ (q ≡ record p { cancelled = true })

  submit-Spent :
      (o : Option (Slot T)) (i : ℕ) (p : Pool T) → slot_at i p.slots ≡ o → Spent p (submit_at o i p)
  unfolding submit_at
  submit-Spent none i p h = inl refl
  submit-Spent (some (queued t)) i p h = inl refl
  submit-Spent (some (running t)) i p h = inl refl
  submit-Spent (some (done t)) i p h = inl refl
  submit-Spent (some (waiting t)) i p h = elim (Bool-cases p.closed) [
    | inl shut ↦ rw shut (inl refl)
    | inr open_ ↦ inr (inl (submit-lt t i p h open_))
  ]

  take-Spent :
      (o : Option (Slot T)) (i : ℕ) (p : Pool T) → slot_at i p.slots ≡ o → Spent p (take_at o i p)
  unfolding take_at
  take-Spent none i p h = inl refl
  take-Spent (some (waiting t)) i p h = inl refl
  take-Spent (some (running t)) i p h = inl refl
  take-Spent (some (done t)) i p h = inl refl
  take-Spent (some (queued t)) i p h = elim (Bool-cases (p.idle == 0)) [
    | inl nobody ↦ rw nobody (inl refl)
    | inr somebody ↦ inr (inl (take-lt t i p h (ground arith)))
  ]

  finish-Spent :
      (o : Option (Slot T)) (i : ℕ) (p : Pool T) → slot_at i p.slots ≡ o → Spent p (finish_at o i p)
  unfolding finish_at
  finish-Spent none i p h = inl refl
  finish-Spent (some (waiting t)) i p h = inl refl
  finish-Spent (some (queued t)) i p h = inl refl
  finish-Spent (some (done t)) i p h = inl refl
  finish-Spent (some (running t)) i p h = inr (inl (finish-lt t i p h))

  step-Spent : (e : Event) (p : Pool T) → Spent p (step e p)
  unfolding step
  step-Spent (submit i) p = submit-Spent (slot_at i p.slots) i p refl
  step-Spent (take i) p = take-Spent (slot_at i p.slots) i p refl
  step-Spent (finish i) p = finish-Spent (slot_at i p.slots) i p refl
  step-Spent close p = elim (Bool-cases (p.cancelled || count is_waiting p.slots == 0)) [
    | inr early ↦ rw early (inl refl)
    | inl due ↦ elim (Bool-cases p.closed) [
      | inl shut_ ↦ rw due (inl (λ i. record p { closed = sym shut_ i }))
      | inr open_ ↦ rw due (inr (inl (ground arith)))
    ]
  ]
  step-Spent quit p = elim (Bool-cases (p.idle == 0)) [
    | inl nobody ↦ rw nobody (inl refl)
    | inr somebody ↦ elim (Bool-cases (p.cancelled || (p.closed && count is_queued p.slots == 0))) [
      | inr stays ↦ rw (somebody, stays) (inl refl)
      | inl leaves ↦ rw (somebody, leaves) (inr (inl (ground arith)))
    ]
  ]
  step-Spent cancel p = inr (inr refl)

  -- The first slot that passes a test.
  find :
      (q : Slot T → Bool) (ss : List (Slot T))
      → (count q ss ≡ 0) ⊎ ((i : ℕ) × (s : Slot T) × (slot_at i ss ≡ some s) × (q s ≡ true))
  unfolding count
  find q [] = inl refl
  find q (s ∷ ss) = elim (Bool-cases (q s)) [
    | inl here ↦ inr (0, s, refl, here)
    | inr not_here ↦ elim (find q ss) [
      | inl nowhere ↦ inl (rw not_here (omega (arith, nowhere)))
      | inr (i, r, at, passes) ↦ inr (suc i, r, at, passes)
    ]
  ]

  -- Some step leaves less to do.
  abbrev pub Goes : Pool T → Type 0
  Goes p = (e : Event) × (measure (step e p) < measure p)

  submits :
      (p : Pool T) (i : ℕ) (s : Slot T)
      → slot_at i p.slots ≡ some s
      → is_waiting s ≡ true
      → p.closed ≡ false
      → Goes p
  unfolding step
  submits p i (waiting t) at h open_ = (submit i, rw at (submit-lt t i p at open_))
  submits p i (queued t) at h open_ = cc
  submits p i (running t) at h open_ = cc
  submits p i (done t) at h open_ = cc

  takes :
      (p : Pool T) (i : ℕ) (s : Slot T)
      → slot_at i p.slots ≡ some s
      → is_queued s ≡ true
      → p.idle ≢ 0
      → Goes p
  unfolding step
  takes p i (queued t) at h somebody = (take i, rw at (take-lt t i p at somebody))
  takes p i (waiting t) at h somebody = cc
  takes p i (running t) at h somebody = cc
  takes p i (done t) at h somebody = cc

  finishes :
      (p : Pool T) (i : ℕ) (s : Slot T) → slot_at i p.slots ≡ some s → is_running s ≡ true → Goes p
  unfolding step
  finishes p i (running t) at h = (finish i, rw at (finish-lt t i p at))
  finishes p i (waiting t) at h = cc
  finishes p i (queued t) at h = cc
  finishes p i (done t) at h = cc

  closes : (p : Pool T) → p.closed ≡ false → count is_waiting p.slots ≡ 0 → Goes p
  unfolding step
  closes p open_ none_waiting = (close, ground arith)

  quits : (p : Pool T) → p.closed ≡ true → count is_queued p.slots ≡ 0 → p.idle ≢ 0 → Goes p
  unfolding step
  quits p shut_ none_queued somebody = (quit, ground arith)

  -- It has returned, or some goroutine can make a step that leaves less to do.
  returned_or_Goes : (p : Pool T) → Returned p ⊎ Goes p
  returned_or_Goes p = elim (Bool-cases p.closed) [
    | inr open_ ↦ elim (find is_waiting p.slots) [
      | inr (i, s, at, h) ↦ inr (submits p i s at h open_)
      | inl none_waiting ↦ inr (closes p open_ none_waiting)
    ]
    | inl shut_ ↦ elim (find is_running p.slots) [
      | inr (i, s, at, h) ↦ inr (finishes p i s at h)
      | inl none_running ↦ elim (Bool-cases (p.idle == 0)) [
        | inl nobody ↦ inl (shut_, ground arith, none_running)
        | inr somebody ↦ elim (find is_queued p.slots) [
          | inr (i, s, at, h) ↦ inr (takes p i s at h (ground arith))
          | inl none_queued ↦ inr (quits p shut_ none_queued (ground arith))
        ]
      ]
    ]
  ]

  finish_within :
      (n : ℕ) (p : Pool T)
      → measure p ≤ n
      → (es : List Event) × Returned (run es p) × (length es ≤ n)
  finish_within zero p h = elim (returned_or_Goes p) [
    | inl over ↦ ([], over, omega arith)
    | inr (e, less) ↦ absurd (omega (arith, less, h))
  ]
  finish_within (suc n) p h = elim (returned_or_Goes p) [
    | inl over ↦ ([], over, omega arith)
    | inr (e, less) ↦
        let (es, over, short) = finish_within n (step e p) (omega (arith, less, h)) in
        (e ∷ es, over, omega (arith, short))
  ]

  -- From any state `ParallelForEach` can return, in no more steps than there is left to do; and every
  -- step that changes anything leaves less to do, but for the context's being done: with calls of `fn`
  -- that return, no schedule goes on for ever, and none gets stuck before the end.
  pub parallel_returns :
      (p : Pool T)
      → ((es : List Event) × Returned (run es p) × (length es ≤ measure p))
        × ((e : Event) → Spent p (step e p))
        × (Returned p ⊎ Goes p)
  parallel_returns p =
      (finish_within (measure p) p (omega arith), λ e. step-Spent e p, returned_or_Goes p)
