-- ===== src/App/Manifest.antt =====
-- internal/app/orchestrator.go: `RunManifest` and `buildSourceOptions`, with internal/manifest/types.go.
-- `Run` is a function of a source's URL and options that gives its error; log lines and times are left
-- out.
mod Succeeds
mod Tests
use repodocs_go.Utils.Parallel.Finished.{done_with}
use package.text.Mathlib.Text.{◌==◌ as str_eq}
use Prim.Native.Nat.{min}
use repodocs_go.Base.{
  length, positive_or, negsuc, ◌==◌, ◌&&◌, none, [], ◌∷◌, ◌++◌, some, pos, not, if◌then◌else◌, ℕ,
  Bool, List, ℤ, Option, String,
}
use repodocs_go.Domain.Errors.{Error, nil, is_nil, wrapped}
use repodocs_go.Utils.Parallel
use repodocs_go.Utils.Parallel.{Event, count, Pool, errors_of, first_error}

pub record Source : Type 0 where
  pub url : String
  pub strategy : String
  pub content_selector : String
  pub exclude_selector : String
  pub exclude : List String
  pub render_js : Option Bool
  pub limit : ℤ

-- The options that a source can set; the others are passed on as they are.
pub record SourceOptions : Type 0 where
  pub strategy_override : String
  pub content_selector : String
  pub exclude_selector : String
  pub exclude_patterns : List String
  pub render_js : Bool
  pub limit : ℤ

abbrev pub non_empty_or : String → String → String
non_empty_or base s = if str_eq s "" then base else s

abbrev pub set_or : Bool → Option Bool → Bool
set_or base none = base
set_or base (some b) = b

abbrev pub positive_limit_or : ℤ → ℤ → ℤ
positive_limit_or base (pos n) = if n == 0 then base else pos n
positive_limit_or base (negsuc n) = base

unfoldable pub build_source_options : Source → SourceOptions → SourceOptions
build_source_options source base = record {
  strategy_override = non_empty_or base.strategy_override source.strategy;
  content_selector = non_empty_or base.content_selector source.content_selector;
  exclude_selector = non_empty_or base.exclude_selector source.exclude_selector;
  exclude_patterns = base.exclude_patterns ++ source.exclude;
  render_js = set_or base.render_js source.render_js;
  limit = positive_limit_or base.limit source.limit;
}

-- `concurrency`: 5 where it is not set, and 3 at most.
abbrev pub concurrency_of : ℤ → ℤ
concurrency_of workers = pos (min 3 (positive_or 5 workers))

-- What `RunManifest` returns: nil, an error as it is, or so many failures of so many sources with the
-- first error.
pub data ManifestError : Type 0 where
  no_error : ManifestError
  failed : Error → ManifestError
  with_failures : ℕ → ℕ → Error → ManifestError

module _ (run_source : String → SourceOptions → Error) (base : SourceOptions)
    (continue_on_error : Bool) where
  unfoldable pub source_error : Source → Error
  source_error s = run_source s.url (build_source_options s base)

  -- What the function that runs on each source returns.
  unfoldable pub callback_error : Source → Error
  unfolding source_error
  callback_error s = if continue_on_error then nil else source_error s

  -- What it stores as the first error, if none is stored.
  abbrev pub reported : Source → Error
  unfolding source_error
  reported s =
      if is_nil (source_error s)
      then nil
      else if continue_on_error
      then source_error s
      else wrapped "source %s failed: %w" (source_error s)

  -- `firstError`, after the calls for the sources in the list, the latest first.
  unfoldable pub first_reported : List Source → Error
  unfolding source_error
  first_reported [] = nil
  first_reported (s ∷ earlier) =
      let e = first_reported earlier in if is_nil e then reported s else e

  -- A result whose `Error` is not nil: one that was never stored counts as a success.
  unfoldable pub fails : Source → Bool
  unfolding source_error
  fails s = not (is_nil (source_error s))

  -- `if err := utils.FirstError(errs); err != nil && firstError == nil`
  abbrev pub first_of : Error → Error → Error
  first_of first err = if is_nil first then err else first

  unfoldable pub manifest_result : Error → ℕ → Pool Source → ManifestError
  unfolding callback_error first_reported fails
  manifest_result ctx_err total p =
      let first = first_reported p.finished in
      let last = first_of first (first_error (errors_of callback_error p.slots)) in
      if not (is_nil ctx_err)
      then failed ctx_err
      else if not continue_on_error && not (is_nil first)
      then failed first
      else if not (is_nil last)
      then with_failures (count (done_with fails) p.slots) total last
      else no_error

  -- `RunManifest`, under a schedule of the goroutines and the context's cancellation.
  unfoldable pub run_manifest : Error → ℤ → List Source → List Event → ManifestError
  unfolding manifest_result Parallel.start
  run_manifest ctx_err workers [] es = no_error
  run_manifest ctx_err workers (s ∷ sources) es =
      manifest_result ctx_err (length (s ∷ sources))
        (Parallel.run es (Parallel.start (s ∷ sources) (concurrency_of workers)))
