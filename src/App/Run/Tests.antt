-- ===== src/App/Run/Tests.antt =====
-- internal/app/orchestrator.go: a run of `Run`, and its theorem at a concrete input.
use repodocs_go.Domain.Errors.{nil}
use repodocs_go.Domain.Result.{new_strategy_result, zero_snapshot}
use repodocs_go.Recovery.Validator.{new_validator, validate, judge}
use repodocs_go.App.Fallback.{
  Orchestrator, OrchestratorOptions, validation_opts, run_with_fallback, fall_back, try_candidates,
}
use repodocs_go.App.Run.{no_error, start_page, start_crawler, start, Steps, run, Strings}
use repodocs_go.App.Run.Concludes.{Concluded, run-Concluded}
use repodocs_go.Base.{◌≡◌, [], ◌+◌, true, refl, pos, some, none, false, ℕ}

-- The world counts attempts, and saves of the state.
abbrev World : Type 0
World = ℕ × ℕ

abbrev no_strings : Strings
no_strings = record {
  to_lower = λ s. s;
  index_any = λ s chars. none;
  slice_to = λ s idx. s;
  has_suffix = λ s suffix. false;
}

abbrev steps : Steps World
steps = record {
  detect = λ url. "crawler";
  discover = λ url w. (some "https://x.io/sitemap.xml", w);
  is_sitemap = λ url w. (false, w);
  can_create = λ strategy w. true;
  flush_metadata = λ w. w;
  prune_deleted = λ w. w;
  save_state = λ w. (w.0, w.1 + 1);
  strings = no_strings;
}

abbrev writes : ℕ → Orchestrator World
writes n = record {
  exec_attempt = λ a w. (
    some (record (new_strategy_result a.strategy a.url 0) {
      now_at = record (zero_snapshot a.strategy a.url) { docs_written = n };
    }),
    nil,
    (w.0 + 1, w.1),
  );
  ctx_err = λ w. nil;
  clock = λ w. 0;
  run_probes = λ a w. ([], w);
  parse = λ raw. none;
  validator = new_validator none;
}

abbrev plain : OrchestratorOptions
plain = record { dry_run = false; min_docs = pos 0; no_fallback = false; strategy_override = "" }

success_test : run steps (writes 1) plain "" false "https://x.io/" (0, 0) ≡ (no_error, (1, 1))
unfolding run start start_crawler start_page run_with_fallback fall_back try_candidates validate
    judge new_validator validation_opts
success_test = refl

run-Concluded_example :
    Concluded steps
      (writes 0)
      plain
      ""
      false
      (λ w. w.1)
      (0, 0)
      (run steps (writes 0) plain "" false "https://x.io/" (0, 0))
run-Concluded_example =
    run-Concluded steps (writes 0) plain "" false (λ w. w.1)
      (record { attempts = λ a w. refl; probes = λ a w. refl }) (λ url w. refl) (λ url w. refl)
      "https://x.io/" (0, 0)
