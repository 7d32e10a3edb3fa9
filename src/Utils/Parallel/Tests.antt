-- ===== src/Utils/Parallel/Tests.antt =====
-- internal/utils/workerpool.go: a run of `ParallelForEach`, and its theorems at concrete inputs.
use repodocs_go.Utils.Parallel.Refines.{parallel-map}
use repodocs_go.Utils.Parallel.Progress.{parallel_returns, Goes, Spent, measure}
use repodocs_go.Base.{refl, ◌⊎◌, map, ◌≤◌, ◌≡◌, ◌==◌, length, [], ◌∷◌, pos, if◌then◌else◌, ℕ, List}
use repodocs_go.Domain.Errors.{message, Error, nil}
use repodocs_go.Utils.Parallel.{
  quit, close, finish, take, submit, Event, step, run, start, count, Returned, errors_of,
}

-- Two workers on three items; the second item is done first, and the first two are under way at once.
abbrev schedule : List Event
schedule =
    submit 0
    ∷ submit 1
    ∷ take 0
    ∷ take 1
    ∷ submit 2
    ∷ finish 1
    ∷ take 2
    ∷ close
    ∷ finish 2
    ∷ quit
    ∷ finish 0
    ∷ quit
    ∷ []

abbrev items : List ℕ
items = 4 ∷ 0 ∷ 9 ∷ []

abbrev fails_at_zero : ℕ → Error
fails_at_zero n = if n == 0 then message "zero" else nil

errors_test :
    errors_of fails_at_zero (run schedule (start items (pos 2))).slots
    ≡ nil ∷ message "zero" ∷ nil ∷ []
unfolding step start count
errors_test = refl

parallel-map_example :
    errors_of fails_at_zero (run schedule (start items (pos 2))).slots ≡ map fails_at_zero items
unfolding step start count
parallel-map_example = parallel-map fails_at_zero items (pos 2) schedule (refl, refl, refl) refl

parallel_returns_example :
    ((es : List Event) × Returned (run es (start items (pos 2)))
      × (length es ≤ measure (start items (pos 2))))
    × ((e : Event) → Spent (start items (pos 2)) (step e (start items (pos 2))))
    × (Returned (start items (pos 2)) ⊎ Goes (start items (pos 2)))
parallel_returns_example = parallel_returns (start items (pos 2))
