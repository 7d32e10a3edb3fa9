-- ===== src/Domain/Errors.antt =====
-- internal/domain/errors.go, and what the source uses of Go's `errors`: `nil` is the interface's nil
-- value, and `Is` and `As` look along the chain of `Unwrap`.
pub mod Retryable
mod Tests
use repodocs_go.Base.{
  ℕ, Bool, true, false, ◌||◌, ◌&&◌, List, [], ◌∷◌, Option, none, some, String, ℤ, leb, ◌==◌,
  if◌then◌else◌,
}

-- The sentinels, Go's two of `context`, last.
pub data Sentinel : Type 0 where
  not_found cache_miss cache_expired rate_limited blocked timeout invalid_url : Sentinel
  no_strategy render_failed conversion_failed write_failed browser_not_found : Sentinel
  insufficient_output plan_exhausted : Sentinel
  llm_not_configured llm_missing_api_key llm_missing_base_url llm_missing_model : Sentinel
  llm_invalid_provider llm_request_failed llm_rate_limited llm_auth_failed : Sentinel
  llm_context_too_long llm_circuit_open llm_max_retries_exceeded : Sentinel
  canceled deadline_exceeded : Sentinel

-- Which of them a sentinel is: `errors.New` makes each a value of its own.
abbrev pub number : Sentinel → ℕ
number not_found = 0
number cache_miss = 1
number cache_expired = 2
number rate_limited = 3
number blocked = 4
number timeout = 5
number invalid_url = 6
number no_strategy = 7
number render_failed = 8
number conversion_failed = 9
number write_failed = 10
number browser_not_found = 11
number insufficient_output = 12
number plan_exhausted = 13
number llm_not_configured = 14
number llm_missing_api_key = 15
number llm_missing_base_url = 16
number llm_missing_model = 17
number llm_invalid_provider = 18
number llm_request_failed = 19
number llm_rate_limited = 20
number llm_auth_failed = 21
number llm_context_too_long = 22
number llm_circuit_open = 23
number llm_max_retries_exceeded = 24
number canceled = 25
number deadline_exceeded = 26

pub data Error : Type 0 where
  nil : Error
  sentinel : Sentinel → Error
  -- *FetchError: URL, status code, cause
  fetch_error : String → ℕ → Error → Error
  -- *RetryableError: cause, seconds to wait
  retryable_error : Error → ℤ → Error
  validation_error : String → String → Error
  strategy_error : String → String → Error → Error
  -- *LLMError: provider, status code, message, cause
  llm_error : String → ℕ → String → Error → Error
  -- *url.Error of net/url: whether it is a timeout, cause
  url_error : Bool → Error → Error
  -- fmt.Errorf with one %w
  wrapped : String → Error → Error
  -- errors.New, or fmt.Errorf without %w
  message : String → Error

abbrev pub is_nil : Error → Bool
is_nil nil = true
is_nil _ = false

-- The errors that `errors.Is` and `errors.As` visit, outermost first.
unfoldable pub chain : Error → List Error
chain nil = []
chain (sentinel s) = sentinel s ∷ []
chain (fetch_error u s e) = fetch_error u s e ∷ chain e
chain (retryable_error e n) = retryable_error e n ∷ chain e
chain (validation_error f m) = validation_error f m ∷ []
chain (strategy_error s u e) = strategy_error s u e ∷ chain e
chain (llm_error p s m e) = llm_error p s m e ∷ chain e
chain (url_error t e) = url_error t e ∷ chain e
chain (wrapped m e) = wrapped m e ∷ chain e
chain (message m) = message m ∷ []

-- The first value that `f` finds in a list.
abbrev pub first {ℓ} : {A : Type ℓ} → (Error → Option A) → List Error → Option A
first f [] = none
first f (e ∷ es) = elim (f e) [ some a ↦ some a | none ↦ first f es ]

abbrev pub has : (Error → Bool) → List Error → Bool
has p [] = false
has p (e ∷ es) = p e || has p es

abbrev pub same_sentinel : Sentinel → Error → Bool
same_sentinel s (sentinel t) = number s == number t
same_sentinel s _ = false

-- errors.Is(e, s)
unfoldable pub is : Error → Sentinel → Bool
unfolding chain
is e s = has (same_sentinel s) (chain e)

abbrev pub retry_after_of : Error → Option ℤ
retry_after_of (retryable_error _ n) = some n
retry_after_of _ = none

abbrev pub fetch_status_of : Error → Option ℕ
fetch_status_of (fetch_error _ s _) = some s
fetch_status_of _ = none

abbrev pub llm_status_of : Error → Option ℕ
llm_status_of (llm_error _ s _ _) = some s
llm_status_of _ = none

abbrev pub url_timeout_of : Error → Option Bool
url_timeout_of (url_error t _) = some t
url_timeout_of _ = none

-- errors.As with a target of each type, as what the callers read of it.
unfoldable pub as_retryable : Error → Option ℤ
unfolding chain
as_retryable e = first retry_after_of (chain e)

unfoldable pub as_fetch : Error → Option ℕ
unfolding chain
as_fetch e = first fetch_status_of (chain e)

unfoldable pub as_llm : Error → Option ℕ
unfolding chain
as_llm e = first llm_status_of (chain e)

unfoldable pub as_url : Error → Option Bool
unfolding chain
as_url e = first url_timeout_of (chain e)

-- The status codes for which `IsRetryable` returns from the block of the FetchError.
abbrev pub retryable_status : ℕ → Bool
retryable_status c = c == 429 || c == 503 || c == 502 || c == 504 || (leb 520 c && leb c 530)

abbrev pub status_retryable : Option ℕ → Bool
status_retryable none = false
status_retryable (some c) = retryable_status c

abbrev pub found {ℓ} : {A : Type ℓ} → Option A → Bool
found none = false
found (some _) = true

unfoldable pub is_retryable : Error → Bool
unfolding as_retryable as_fetch is
is_retryable e =
    found (as_retryable e) || status_retryable (as_fetch e) || is e rate_limited || is e timeout

unfoldable pub is_transient : Error → Bool
unfolding is_retryable
is_transient e = if is_nil e then false else is_retryable e
