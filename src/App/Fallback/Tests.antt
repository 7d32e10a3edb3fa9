-- ===== src/App/Fallback/Tests.antt =====
-- internal/app/fallback.go: runs, and the theorems at concrete inputs.
use repodocs_go.Domain.Errors.{nil}
use repodocs_go.Domain.Result.{zero_snapshot, new_strategy_result, StrategyResult}
use repodocs_go.Recovery.Validator.{ok, new_validator, judge, validate}
use repodocs_go.Recovery.Planner.{plan, Attempt}
use repodocs_go.Base.{none, ◌+◌, ◌≤◌, if◌then◌else◌, some, refl, length, ◌≡◌, ℕ, pos, false, []}
use text.Mathlib.Text.{◌==◌ as str_eq}
use repodocs_go.App.Fallback.{
  attempt_key, validation_opts, try_fallback, try_candidates, fall_back, Orchestrator,
  OrchestratorOptions, exec_attempt, run_with_fallback,
}
use repodocs_go.App.Fallback.Budget.{recorded, Distinct, run-bounded}
use repodocs_go.App.Fallback.Outcome.{alone, Surfaced, run-Surfaced}

abbrev initial : Attempt
initial = record {
  strategy = "sitemap";
  url = "https://x.io/sitemap.xml";
  filter_url = "https://x.io/docs";
  reason = "initial detection";
}

-- The crawler writes one document and no other strategy does; the world counts the runs.
abbrev written : ℕ → StrategyResult
written n = record (new_strategy_result "s" "u" 0) {
  now_at = record (zero_snapshot "s" "u") { docs_written = n };
}

abbrev orchestrator : Orchestrator ℕ
orchestrator = record {
  exec_attempt =
      exec_attempt
        (λ name. some (record {
          name = name;
          execute =
              λ url filter w. (some (written (if str_eq name "crawler" then 1 else 0)), nil, w + 1);
        }))
        (λ url name w. w);
  ctx_err = λ w. nil;
  clock = λ w. 0;
  run_probes = λ a w. ([], w);
  parse = λ raw. none;
  validator = new_validator none;
}

abbrev options : OrchestratorOptions
options = record { dry_run = false; min_docs = pos 0; no_fallback = false; strategy_override = "" }

recovered :
    let (result, verdict, err, w) = run_with_fallback orchestrator options initial 0 in
    (verdict ≡ ok) × (w ≡ 2)
unfolding run_with_fallback fall_back try_candidates try_fallback plan validate judge new_validator
    exec_attempt attempt_key validation_opts
recovered = (refl, refl)

run-bounded_example :
    let log = (run_with_fallback (recorded orchestrator) options initial (0, [])).3.1 in
    Distinct log × (length log ≤ 3)
run-bounded_example = run-bounded orchestrator options initial 0

run-Surfaced_example :
    Surfaced orchestrator options
      (alone orchestrator options initial 0)
      (run_with_fallback orchestrator options initial 0)
run-Surfaced_example = run-Surfaced orchestrator options initial 0
