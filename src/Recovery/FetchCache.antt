-- ===== src/Recovery/FetchCache.antt =====
-- internal/recovery/probe_cache.go: `fetchCache`, as a machine whose steps are those of the probes that
-- share it, in any order. A `get` takes the lock once; what happens after that, a request or the select
-- on a call that is there, which may have its result already, are steps of their own. A result R is a response or an error.
pub mod Once
mod Tests
use package.text.Mathlib.Text.{◌==◌ as str_eq}
use repodocs_go.Base.{none, some, [], ◌∷◌, if◌then◌else◌, List, Option, String}

-- `fetchCall`: `done` is open until the request has its result.
pub data FetchCall (R : Type 0) : Type 0 where
  in_flight : FetchCall R
  done : R → FetchCall R

pub record FetchCache (R : Type 0) : Type 0 where
  pub calls : List (String × FetchCall R)
  -- the URLs of the calls of `Fetcher.Get`, and those that a caller waits for
  pub requests : List String
  pub waiting : List String
  -- what callers of `get` got, and those whose own context ended
  pub returned : List (String × R)
  pub cancelled : List String

pub data Event (R : Type 0) : Type 0 where
  get : String → Event R
  -- `Fetcher.Get` returns
  fetched : String → R → Event R
  -- `case <-call.done` and `case <-ctx.Done()`, of a caller that waits for the URL
  wake : String → Event R
  give_up : String → Event R

-- `calls[url]`
abbrev pub find_call {ℓ} : {A : Type ℓ} → String → List (String × A) → Option A
find_call url [] = none
find_call url ((u, a) ∷ calls) =
    let rest = find_call url calls in if str_eq u url then some a else rest

-- The call for the URL, closed with its result.
abbrev pub close_call {ℓ} : {A : Type ℓ} → String → A → List (String × A) → List (String × A)
close_call url a [] = []
close_call url a ((u, b) ∷ calls) =
    let rest = close_call url a calls in if str_eq u url then (u, a) ∷ calls else (u, b) ∷ rest

-- One caller fewer that waits, where there is one.
abbrev pub leave_wait : String → List String → Option (List String)
leave_wait url [] = none
leave_wait url (u ∷ urls) =
    let rest = leave_wait url urls in
    if str_eq u url then some urls else elim rest [ none ↦ none | some us ↦ some (u ∷ us) ]

module _ {R : Type 0} where
  get_of : Option (FetchCall R) → String → FetchCache R → FetchCache R
  get_of none url c = record c { calls = (url, in_flight) ∷ c.calls; requests = url ∷ c.requests }
  get_of (some call) url c = record c { waiting = url ∷ c.waiting }

  fetched_of : Option (FetchCall R) → String → R → FetchCache R → FetchCache R
  fetched_of (some in_flight) url r c = record c {
    calls = close_call url (done r) c.calls;
    returned = (url, r) ∷ c.returned;
  }
  fetched_of _ url r c = c

  wake_of : Option (FetchCall R) → Option (List String) → String → FetchCache R → FetchCache R
  wake_of (some (done r)) (some us) url c = record c {
    waiting = us;
    returned = (url, r) ∷ c.returned;
  }
  wake_of _ _ url c = c

  give_up_of : Option (List String) → String → FetchCache R → FetchCache R
  give_up_of (some us) url c = record c { waiting = us; cancelled = url ∷ c.cancelled }
  give_up_of none url c = c

  -- A step that cannot be made changes nothing.
  unfoldable pub step : Event R → FetchCache R → FetchCache R
  unfolding get_of fetched_of wake_of give_up_of
  step (get url) c = get_of (find_call url c.calls) url c
  step (fetched url r) c = fetched_of (find_call url c.calls) url r c
  step (wake url) c = wake_of (find_call url c.calls) (leave_wait url c.waiting) url c
  step (give_up url) c = give_up_of (leave_wait url c.waiting) url c

  abbrev pub run : List (Event R) → FetchCache R → FetchCache R
  run [] c = c
  run (e ∷ es) c = run es (step e c)

  unfoldable pub new_fetch_cache : FetchCache R
  new_fetch_cache = record {
    calls = [];
    requests = [];
    waiting = [];
    returned = [];
    cancelled = [];
  }
