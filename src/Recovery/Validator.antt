-- ===== src/Recovery/Validator.antt =====
-- internal/recovery/validator.go, and the suggestions of errors.go. A ratio of float64 is a fraction:
-- the code compares one with `completed / attempted`, which is done exactly here.
pub mod Verdicts
mod Tests
use repodocs_go.Base.{
  ◌*◌, none, ◌&&◌, some, ltb, ◌∷◌, ◌==◌, ◌++◌, ℤ, not, leb, [], Bool, ◌+◌, ℕ, positive_or,
  if◌then◌else◌, String, Option, List,
}
use text.Mathlib.Text.{◌==◌ as str_eq}
use repodocs_go.Domain.Errors.{nil, Error, sentinel, is_nil, is_transient, insufficient_output}
use repodocs_go.Domain.Result.{
  StrategyResult, Snapshot, Diagnostic, DiagnosticCode, filter_zeroed, no_documents, finish, call,
  snapshot,
}

pub record Ratio : Type 0 where
  pub numerator : ℕ
  pub denominator : ℕ

-- 0.10
abbrev pub default_min_success_ratio : Ratio
default_min_success_ratio = record { numerator = 1; denominator = 10 }

abbrev pub default_min_docs_written : ℕ
default_min_docs_written = 1

-- The strings of `VerdictRetryAlternative.Reason` that the code makes: the code of the diagnostic, the
-- literal, and the text with the ratio printed in it.
pub data RetryReason : Type 0 where
  filter_zeroed_code : RetryReason
  no_urls_attempted : RetryReason
  high_failure_ratio : Ratio → RetryReason

pub data HardReason : Type 0 where
  strategy_execution_failed no_outcome_telemetry zero_documents below_minimum : HardReason

pub data Verdict : Type 0 where
  ok : Verdict
  retry_alternative : RetryReason → List Diagnostic → Verdict
  hard_fail : HardReason → Error → Verdict
  propagate : Error → Verdict

pub record Criteria : Type 0 where
  pub min_docs_written : ℕ
  pub min_success_ratio : Ratio

pub record ValidationOptions : Type 0 where
  pub filter_url : String
  pub dry_run : Bool
  pub min_docs : ℤ
  pub min_success_ratio : Ratio

-- `if r > 0` of a ratio
abbrev pub ratio_or : Ratio → Ratio → Ratio
ratio_or d r = if r.numerator == 0 then d else r

-- `NewValidator(nil)` and `NewValidator(&Criteria{...})`.
unfoldable pub new_validator : Option (ℤ × Ratio) → Criteria
new_validator none = record {
  min_docs_written = default_min_docs_written;
  min_success_ratio = default_min_success_ratio;
}
new_validator (some (min_docs, min_ratio)) = record {
  min_docs_written = positive_or default_min_docs_written min_docs;
  min_success_ratio = ratio_or default_min_success_ratio min_ratio;
}

unfoldable pub criteria_for : Criteria → ValidationOptions → Criteria
criteria_for c opts = record {
  min_docs_written = positive_or c.min_docs_written opts.min_docs;
  min_success_ratio = ratio_or c.min_success_ratio opts.min_success_ratio;
}

unfoldable pub diagnostics_or_default : Snapshot → DiagnosticCode → String → List Diagnostic
diagnostics_or_default s code message = elim s.diagnostics [
  | [] ↦ record { code = code; message = message; hint = "" } ∷ []
  | d ∷ ds ↦ d ∷ ds
]

-- `float64(completedDocs) / float64(snapshot.URLsAttempted) < criteria.MinSuccessRatio`
abbrev pub below_ratio : ℕ → ℕ → Ratio → Bool
below_ratio completed attempted r = ltb (completed * r.denominator) (r.numerator * attempted)

-- The tests on the snapshot, in their order.
unfoldable pub judge : Criteria → ValidationOptions → Snapshot → Verdict
unfolding diagnostics_or_default
judge c opts s =
    let completed = s.docs_written + s.docs_skipped in
    if leb c.min_docs_written completed
    then ok
    else if opts.dry_run && leb c.min_docs_written s.urls_attempted && s.docs_failed == 0
    then ok
    else if s.urls_attempted == 0 && not (str_eq opts.filter_url "")
    then retry_alternative filter_zeroed_code
        (diagnostics_or_default s filter_zeroed "URL filter excluded all candidate URLs")
    else if ltb 0 s.urls_discovered && s.urls_attempted == 0
    then retry_alternative no_urls_attempted
        (diagnostics_or_default s no_documents "No discovered URLs survived filtering or limits")
    else if ltb 20 s.urls_attempted && below_ratio completed s.urls_attempted c.min_success_ratio
    then retry_alternative
        (high_failure_ratio (record { numerator = completed; denominator = s.urls_attempted }))
        s.diagnostics
    else if completed == 0
    then hard_fail zero_documents (sentinel insufficient_output)
    else hard_fail below_minimum (sentinel insufficient_output)

-- `r.Finish()` changes the result, which is returned too.
unfoldable pub validate :
    Criteria
    → ℕ
    → Option StrategyResult
    → Error
    → ValidationOptions
    → Verdict × Option StrategyResult
unfolding call criteria_for
validate v now none err opts =
    if not (is_nil err) && is_transient err
    then (propagate err, none)
    else if not (is_nil err)
    then (hard_fail strategy_execution_failed err, none)
    else (hard_fail no_outcome_telemetry (sentinel insufficient_output), none)
validate v now (some r) err opts =
    let finished = call (finish now) (some r) in
    if not (is_nil err) && is_transient err
    then (propagate err, some r)
    else if not (is_nil err)
    then (hard_fail strategy_execution_failed err, some r)
    else (judge (criteria_for v opts) opts (snapshot finished), finished)

pub data Suggestion : Type 0 where
  filtered_url_as_entry check_filter_spelling force_strategy : Suggestion
  crawl_filtered_url run_verbose : Suggestion

-- The first block of `suggestionsFor`.
abbrev by_reason : Verdict → List Suggestion
by_reason (retry_alternative filter_zeroed_code _) =
    filtered_url_as_entry ∷ check_filter_spelling ∷ force_strategy ∷ []
by_reason (retry_alternative no_urls_attempted _) =
    filtered_url_as_entry ∷ check_filter_spelling ∷ force_strategy ∷ []
by_reason _ = []

abbrev by_result : Option StrategyResult → List Suggestion
by_result none = []
by_result (some r) =
    let s = snapshot (some r) in
    if str_eq s.strategy "sitemap" && ltb 0 s.urls_discovered && s.urls_attempted == 0
    then crawl_filtered_url ∷ []
    else []

unfoldable pub suggestions_for : Verdict → Option StrategyResult → List Suggestion
suggestions_for v r = elim (by_reason v ++ by_result r) [ [] ↦ run_verbose ∷ [] | s ∷ ss ↦ s ∷ ss ]

-- `OutcomeError.Unwrap`
unfoldable pub unwrap_outcome : Verdict → Error
unwrap_outcome (hard_fail _ cause) = cause
unwrap_outcome (propagate cause) = cause
unwrap_outcome ok = nil
unwrap_outcome (retry_alternative _ _) = nil
