-- ===== src/Strategies/Callbacks.antt =====
-- internal/strategies: what the callback that a strategy runs for each of its pages, in parallel, tells the
-- result of the run.
pub mod Tally
pub mod Diagnosed
use repodocs_go.Base.{Bool, true, false, List, [], ◌∷◌, ◌++◌, ℕ, pos}
use repodocs_go.Domain.Result.{Call, add_bytes_written, inc_written, inc_skipped, inc_failed}

-- How the callback for a page ends; `written` has the bytes of the document.
pub data Outcome : Type 0 where
  skipped failed dry : Outcome
  written : ℕ → Outcome

-- The calls that it makes on the result.
abbrev pub outcome_calls : Outcome → List Call
outcome_calls skipped = inc_skipped ∷ []
outcome_calls failed = inc_failed ∷ []
outcome_calls dry = []
outcome_calls (written n) = inc_written ∷ add_bytes_written (pos n) ∷ []

-- Those of the callbacks for a list of items, one after the other.
abbrev pub item_calls : {T : Type 0} → (T → List Call) → List T → List Call
item_calls calls_of [] = []
item_calls calls_of (t ∷ ts) = calls_of t ++ item_calls calls_of ts

abbrev pub is_failed : Outcome → Bool
is_failed failed = true
is_failed _ = false

abbrev pub is_completed : Outcome → Bool
is_completed skipped = true
is_completed (written n) = true
is_completed _ = false

abbrev pub is_dry : Outcome → Bool
is_dry dry = true
is_dry _ = false
