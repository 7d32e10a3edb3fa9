-- ===== src/App/Run/Concludes.antt =====
-- internal/app/orchestrator.go: when `Run` succeeds, and what is left alone when it does not.
use repodocs_go.App.Strategy.{is_valid_strategy}
use repodocs_go.Domain.Errors.{is_transient, Error, is_nil}
use repodocs_go.Domain.Result.{Snapshot, StrategyResult}
use repodocs_go.Recovery.Validator.{
  hard_fail, retry_alternative, suggestions_for, ValidationOptions, judge, Criteria, Verdict, ok,
  propagate, validate,
}
use repodocs_go.Recovery.Planner.{Attempt}
use repodocs_go.App.Fallback.{is_ok, Orchestrator, OrchestratorOptions, run_with_fallback}
use repodocs_go.App.Fallback.Outcome.{run-Surfaced}
use repodocs_go.App.Fallback.Keeps.{IsUntouched, run_with_fallback-keeps}
use repodocs_go.App.Run.{
  start_found, start_page, is_xml, no_error, outcome_error, failed, success_steps, str_eq,
  start_crawler, start, conclude, Steps, RunError, run,
}
use repodocs_go.Base.{
  if◌then◌else◌, refl, ◌∙◌, ◌≢◌, true, sym, length, Bool, subst, String, none, inr, inl, Bool-cases,
  some, arith, false, Option, ◌≡◌, ℕ,
}

-- An error of the verdict to propagate is one.
abbrev Proper : Verdict → Type 0
Proper (propagate c) = is_nil c ≡ false
Proper _ = Unit

judge-Proper : (c : Criteria) (opts : ValidationOptions) (s : Snapshot) → Proper (judge c opts s)
unfolding judge
judge-Proper c opts s = ground arith

validate-Proper :
    (c : Criteria) (now : ℕ) (r : Option StrategyResult) (err : Error) (opts : ValidationOptions)
    → Proper (validate c now r err opts).0
unfolding validate
validate-Proper c now none err opts = ground arith
validate-Proper c now (some r) err opts = elim (Bool-cases (is_nil err)) [
  | inl fine ↦ rw fine (judge-Proper _ opts _)
  | inr wrong ↦ elim (Bool-cases (is_transient err)) [
    | inl again ↦ rw (wrong, again) wrong
    | inr final ↦ rw (wrong, final) tt
  ]
]

ok-Proper : (v : Verdict) → is_ok v ≡ true → Proper v
ok-Proper ok h = tt
ok-Proper (propagate c) h = cc
ok-Proper (retry_alternative reason ds) h = tt
ok-Proper (hard_fail reason cause) h = tt

suggestions_for-some : (v : Verdict) (r : Option StrategyResult) → length (suggestions_for v r) ≢ 0
unfolding suggestions_for
suggestions_for-some v r = ground arith

module _ {W : Type 0} (o : Orchestrator W) (opts : OrchestratorOptions) where
  run_with_fallback-Proper :
      (initial : Attempt) (w : W) → Proper (run_with_fallback o opts initial w).1
  run_with_fallback-Proper initial w = elim (run-Surfaced o opts initial w) [
    | inl (_, same, _) ↦ subst Proper (sym same) (validate-Proper o.validator _ _ _ _)
    | inr (inl ((alt, u, accepted, _), _)) ↦ ok-Proper _ accepted
    | inr (inr ((ended, cancelled), _)) ↦ subst Proper (sym cancelled) ended
  ]

module _ {W D : Type 0} (steps : Steps W) (o : Orchestrator W) (opts : OrchestratorOptions)
    (filter_url : String) (prune : Bool) (view : W → D) where
  -- `u` is where a run with fallbacks for that filter, alive at its end, left the world with this result and
  -- verdict, and no step before it changed the view.
  abbrev pub Ran : W → Option StrategyResult → Verdict → W → Type 0
  Ran w result verdict u =
      (initial : Attempt) × (begun : W) × (initial.filter_url ≡ filter_url)
      × (run_with_fallback o opts initial begun
          ≡ (result, verdict, (run_with_fallback o opts initial begun).2, u))
      × (is_nil (o.ctx_err u) ≡ true)
      × (view u ≡ view w)

  -- What a return of `Run` says, where it began in `w`.
  abbrev pub Concluded : W → RunError × W → Type 0
  Concluded w (no_error, last) =
      (result : Option StrategyResult) × (u : W) × Ran w result ok u
      × (last ≡ (
          if prune
          then steps.save_state (steps.prune_deleted (steps.flush_metadata u))
          else steps.save_state (steps.flush_metadata u)))
  Concluded w (failed err, last) = (is_nil err ≡ false) × (view last ≡ view w)
  Concluded w (outcome_error verdict result suggestions, last) =
      Ran w result verdict last × (is_ok verdict ≡ false) × (length suggestions ≢ 0)

  saved_pruned :
      (u : W)
      → success_steps steps o opts filter_url prune u ≡ (
          if prune
          then steps.save_state (steps.prune_deleted (steps.flush_metadata u))
          else steps.save_state (steps.flush_metadata u))
  saved_pruned u = ground arith

  conclude-Concluded :
      (result : Option StrategyResult) (w u : W) (v : Verdict)
      → Proper v
      → Ran w result v u
      → Concluded w (conclude steps o opts filter_url prune result v u)
  conclude-Concluded result w u ok proper ran = (result, u, ran, saved_pruned u)
  conclude-Concluded result w u (propagate c) proper (_, _, _, _, _, kept) = (proper, kept)
  conclude-Concluded result w u (retry_alternative reason ds) proper ran =
      (ran, refl, suggestions_for-some _ _)
  conclude-Concluded result w u (hard_fail reason cause) proper ran =
      (ran, refl, suggestions_for-some _ _)

  module _ (untouched : IsUntouched o view)
      (discovers : (url : String) (w : W) → view (steps.discover url w).1 ≡ view w)
      (looks : (url : String) (w : W) → view (steps.is_sitemap url w).1 ≡ view w) where
    start-Concluded :
        (strategy url : String) (w u : W)
        → view u ≡ view w
        → Concluded w (start steps o opts filter_url prune strategy url u)
    unfolding start
    start-Concluded strategy url w u kept =
        let initial : Attempt = record {
          strategy = strategy;
          url = url;
          filter_url = filter_url;
          reason = "initial detection";
        } in
        let kept' = run_with_fallback-keeps o opts view untouched initial u ∙ kept in
        elim (Bool-cases (steps.can_create strategy u)) [
          | inr missing ↦ rw missing (refl, kept)
          | inl made ↦
              elim (Bool-cases (is_nil (o.ctx_err (run_with_fallback o opts initial u).3))) [
                | inr done ↦ rw (made, done) (done, kept')
                | inl live ↦
                    rw (made, live)
                      (conclude-Concluded _ w _ _ (run_with_fallback-Proper o opts initial u)
                        (initial, u, refl, refl, live, kept'))
              ]
        ]

    start_page-Concluded :
        (url : String) (w u : W)
        → view u ≡ view w
        → Concluded w (start_page steps o opts filter_url prune url u)
    unfolding start_page
    start_page-Concluded url w u kept = elim (Bool-cases (is_xml steps.strings url)) [
      | inr page ↦ rw page (start-Concluded "crawler" url w u kept)
      | inl xml ↦ rw xml (
          start-Concluded (if (steps.is_sitemap url u).0 then "sitemap" else "crawler") url w
            (steps.is_sitemap url u).1 (looks url u ∙ kept))
    ]

    start_found-Concluded :
        (discovery : Option String) (url : String) (w u : W)
        → view u ≡ view w
        → Concluded w (start_found steps o opts filter_url prune discovery url u)
    unfolding start_found
    start_found-Concluded (some sitemap_url) url w u kept =
        start-Concluded "sitemap" sitemap_url w u kept
    start_found-Concluded none url w u kept = start_page-Concluded url w u kept

    start_crawler-Concluded :
        (url : String) (w : W) → Concluded w (start_crawler steps o opts filter_url prune url w)
    unfolding start_crawler
    start_crawler-Concluded url w =
        start_found-Concluded (steps.discover url w).0 url w (steps.discover url w).1
          (discovers url w)

    -- `Run` returns nil only when a run with fallbacks, for the filter of the run, ended in the verdict that
    -- its outcome is accepted and with its context alive, and then the world is what that run left with
    -- the metadata flushed after it, then deleted pages pruned if and only if that was asked for, then the
    -- state saved. An outcome error carries a verdict that is not OK and the result of such a run, and
    -- something to suggest, and nothing was flushed, pruned or saved after it. Every other return is an
    -- error that is not nil, and leaves as it was any view of the world that strategies, probes and the
    -- search for a sitemap do not change.
    pub run-Concluded :
        (url : String) (w : W) → Concluded w (run steps o opts filter_url prune url w)
    unfolding run
    run-Concluded url w = elim (Bool-cases (str_eq opts.strategy_override "")) [
      | inr forced ↦ elim (Bool-cases (is_valid_strategy opts.strategy_override)) [
        | inr unknown ↦ rw (forced, unknown) (refl, refl)
        | inl valid ↦ rw (forced, valid) (start-Concluded opts.strategy_override url w w refl)
      ]
      | inl free ↦ elim (Bool-cases (str_eq (steps.detect url) "unknown")) [
        | inl unknown ↦ rw (free, unknown) (refl, refl)
        | inr known ↦ elim (Bool-cases (str_eq (steps.detect url) "crawler")) [
          | inl crawls ↦ rw (free, known, crawls) (start_crawler-Concluded url w)
          | inr other ↦ rw (free, known, other) (start-Concluded (steps.detect url) url w w refl)
        ]
      ]
    ]
