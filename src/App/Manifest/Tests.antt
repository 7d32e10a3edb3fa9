-- ===== src/App/Manifest/Tests.antt =====
-- internal/app/orchestrator.go: runs of `RunManifest` on concrete manifests, and its theorems at them.
use repodocs_go.Base.{
  refl, inr, none, [], ◌∷◌, pos, true, false, if◌then◌else◌, ◌↔◌, ◌≡◌, All, List, String,
}
use repodocs_go.Domain.Errors.{wrapped, Error, nil, message, is_nil}
use repodocs_go.Utils.Parallel.{Event, submit, take, finish, close, quit, cancel}
use repodocs_go.App.Manifest.{
  first_reported, run_manifest, Source, SourceOptions, no_error, with_failures, failed,
}
use repodocs_go.App.Manifest.Succeeds.{run_manifest-nil_iff, Fine}
use repodocs_go.Utils.Parallel
use package.text.Mathlib.Text.{◌==◌ as str_eq}

abbrev source_at : String → Source
source_at u = record {
  url = u;
  strategy = "";
  content_selector = "";
  exclude_selector = "";
  exclude = [];
  render_js = none;
  limit = pos 0;
}

abbrev base_options : SourceOptions
base_options = record {
  strategy_override = "";
  content_selector = "main";
  exclude_selector = "";
  exclude_patterns = [];
  render_js = false;
  limit = pos 0;
}

abbrev fails_at_b : String → SourceOptions → Error
fails_at_b url opts = if str_eq url "b" then message "not found" else nil

abbrev schedule : List Event
schedule = submit 0 ∷ submit 1 ∷ take 0 ∷ take 1 ∷ close ∷ finish 1 ∷ quit ∷ finish 0 ∷ quit ∷ []

-- The failure of the second source cancels the context of the first.
abbrev stopped : List Event
stopped =
    submit 0 ∷ take 0 ∷ submit 1 ∷ take 1 ∷ finish 1 ∷ cancel ∷ quit ∷ close ∷ finish 0 ∷ quit ∷ []

abbrev sources : List Source
sources = source_at "a" ∷ source_at "b" ∷ []

stops_test :
    run_manifest fails_at_b base_options false nil (pos 2) sources stopped
    ≡ failed (wrapped "source %s failed: %w" (message "not found"))
unfolding run_manifest Parallel.step
stops_test = refl

goes_on_test :
    run_manifest fails_at_b base_options true nil (pos 2) sources schedule
    ≡ with_failures 1 2 (message "not found")
unfolding run_manifest Parallel.step Parallel.count
goes_on_test = refl

run_manifest-nil_iff_example :
    (run_manifest fails_at_b base_options false nil (pos 2) sources stopped ≡ no_error)
    ↔ ((is_nil nil ≡ true) × All (Fine fails_at_b base_options false) sources)
unfolding Parallel.step Parallel.start Parallel.count first_reported
run_manifest-nil_iff_example =
    run_manifest-nil_iff fails_at_b base_options false nil (pos 2) (source_at "a")
      (source_at "b" ∷ []) stopped (refl, refl, refl) (λ h. inr (refl, refl))
