-- ===== src/App/Fallback.antt =====
-- internal/app/fallback.go: one run with its fallbacks. The world `W` holds all that the strategies,
-- the context, the clock and the probes read and change; there are no log lines.
pub mod Budget
pub mod Outcome
pub mod Keeps
mod Tests
use repodocs_go.Base.{
  some, ◌==◌, ◌&&◌, none, ◌||◌, ◌-◌, not, ltb, [], ◌∷◌, ℤ, true, if◌then◌else◌, false, ℕ, String,
  Option, List, Bool,
}
use Prim.Native.String as Text
use text.Mathlib.Text.{◌==◌ as str_eq}
use repodocs_go.Domain.Errors.{Error, nil, message, is_nil}
use repodocs_go.Domain.Result.{StrategyResult, snapshot}
use repodocs_go.Recovery.Validator.{
  Ratio, Verdict, ok, retry_alternative, hard_fail, propagate, RetryReason, Criteria,
  ValidationOptions, validate,
}
use repodocs_go.Recovery.Planner.{Attempt, Url, ProbeResult, plan, refine_with}
use repodocs_go.App.Strategy.{is_valid_strategy}

-- The options of a run that the fallback reads itself.
pub record OrchestratorOptions : Type 0 where
  pub dry_run : Bool
  pub min_docs : ℤ
  pub no_fallback : Bool
  pub strategy_override : String

abbrev pub max_fallback_attempts : ℕ
max_fallback_attempts = 2

-- The zero value of the field that `validationOpts` leaves out.
abbrev pub no_ratio : Ratio
no_ratio = record { numerator = 0; denominator = 1 }

unfoldable pub validation_opts : Attempt → OrchestratorOptions → ValidationOptions
validation_opts a opts = record {
  filter_url = a.filter_url;
  dry_run = opts.dry_run;
  min_docs = opts.min_docs;
  min_success_ratio = no_ratio;
}

unfoldable pub attempt_key : Attempt → String
attempt_key a =
    Text.◌++◌ a.strategy (Text.◌++◌ "\0" (Text.◌++◌ a.url (Text.◌++◌ "\0" a.filter_url)))

abbrev pub is_tried : String → List String → Bool
is_tried key [] = false
is_tried key (k ∷ ks) = if str_eq k key then true else is_tried key ks

abbrev pub is_ok : Verdict → Bool
is_ok ok = true
is_ok _ = false

-- What a run of an attempt gives: its result, its error, and the world after it.
abbrev pub Ran : Type 0 → Type 0
Ran W = Option StrategyResult × Error × W

-- What the orchestrator is made of, and what it calls.
pub record Orchestrator (W : Type 0) : Type 0 where
  pub exec_attempt : Attempt → W → Ran W
  pub ctx_err : W → Error
  pub clock : W → ℕ
  pub run_probes : Attempt → W → List ProbeResult × W
  pub parse : String → Option Url
  pub validator : Criteria

-- Where the loop over candidates stands: at a result to return, or with what was tried and what is
-- left of the budget.
pub data Progress (W : Type 0) : Type 0 where
  stopped : Option StrategyResult → Verdict → W → Progress W
  going : List String → ℕ → W → Progress W

-- The shape of a return value of `runWithFallback`.
abbrev pub Returned : Type 0 → Type 0
Returned W = Option StrategyResult × Verdict × Error × W

module _ {W : Type 0} (o : Orchestrator W) (opts : OrchestratorOptions) where
  -- `tryFallback`: the result, the verdict, and whether the caller should stop.
  unfoldable pub try_fallback : Attempt → W → Option StrategyResult × Verdict × Bool × W
  try_fallback alt w =
      let (result, err, w') = o.exec_attempt alt w in
      let (verdict, result') =
        validate o.validator (o.clock w') result err (validation_opts alt opts) in
      if not (is_nil (o.ctx_err w'))
      then (result, propagate (o.ctx_err w'), true, w')
      else (result', verdict, is_ok verdict, w')

  -- One of the two loops over candidates.
  unfoldable pub try_candidates : List Attempt → List String → ℕ → W → Progress W
  try_candidates [] tried budget w = going tried budget w
  try_candidates (alt ∷ alts) tried budget w =
      let key = attempt_key alt in
      let (result, verdict, done, w') = try_fallback alt w in
      let skip = try_candidates alts tried budget w in
      let next = try_candidates alts (key ∷ tried) (budget - 1) w' in
      if budget == 0 || not (is_nil (o.ctx_err w))
      then going tried budget w
      else if is_tried key tried
      then skip
      else if done
      then stopped result verdict w'
      else next

  -- The second tier, after the first left `tried` and `budget`.
  unfoldable pub probe_tier : Attempt → List String → ℕ → W → Progress W
  probe_tier initial tried budget w =
      let (probes, w') = o.run_probes initial w in
      let tier = try_candidates (refine_with initial probes) tried budget w' in
      if ltb 0 budget && is_nil (o.ctx_err w) then tier else going tried budget w

  -- What is returned where the tiers end.
  abbrev concluded : Option StrategyResult → Verdict → Error → Progress W → Returned W
  concluded result verdict err (stopped r v w) = (r, v, nil, w)
  concluded result verdict err (going _ _ w) = (result, verdict, err, w)

  abbrev then_probe : Attempt → Progress W → Progress W
  then_probe initial (stopped r v w) = stopped r v w
  then_probe initial (going tried budget w) = probe_tier initial tried budget w

  -- Both tiers, after the initial attempt.
  unfoldable pub fall_back :
      Attempt → RetryReason → Option StrategyResult → Verdict → Error → W → Returned W
  fall_back initial reason result verdict err w =
      let tier =
        try_candidates (plan o.parse initial reason (snapshot result)) (attempt_key initial ∷ [])
          max_fallback_attempts w in
      concluded result verdict err (then_probe initial tier)

  -- Whether the fallback is allowed, for a verdict that asks for it.
  abbrev judged_by : Attempt → Option StrategyResult → Error → W → Verdict → Returned W
  judged_by initial result err w (retry_alternative reason ds) =
      if opts.no_fallback || not (str_eq opts.strategy_override "")
      then (result, retry_alternative reason ds, err, w)
      else fall_back initial reason result (retry_alternative reason ds) err w
  judged_by initial result err w verdict = (result, verdict, err, w)

  unfoldable pub run_with_fallback : Attempt → W → Returned W
  run_with_fallback initial w =
      let (result, err, w') = o.exec_attempt initial w in
      let (verdict, result') =
        validate o.validator (o.clock w') result err (validation_opts initial opts) in
      judged_by initial result' err w' verdict

-- A strategy that the factory made: its name and its `Execute`, at a URL and with a filter.
pub record Strategy (W : Type 0) : Type 0 where
  pub name : String
  pub execute : String → String → W → Ran W

-- `execAttempt`, with the factory, and `SetSourceURL` and `SetStrategy` of the dependencies.
module _ {W : Type 0} (factory : String → Option (Strategy W))
    (set_source : String → String → W → W) where
  unfoldable pub exec_attempt : Attempt → W → Ran W
  unfolding is_valid_strategy
  exec_attempt a w =
      if not (is_valid_strategy a.strategy)
      then (none, message "invalid strategy for attempt", w)
      else elim (factory a.strategy) [
        | none ↦ (none, message "failed to create strategy for URL", w)
        | some s ↦ s.execute a.url a.filter_url (set_source a.url s.name w)
      ]
