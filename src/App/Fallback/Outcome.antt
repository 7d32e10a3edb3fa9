-- ===== src/App/Fallback/Outcome.antt =====
-- internal/app/fallback.go: what a run with fallbacks returns.

use repodocs_go.Domain.Errors.{is_nil, nil, Error}
use repodocs_go.Domain.Result.{snapshot, StrategyResult}
use repodocs_go.Recovery.Validator.{hard_fail, retry_alternative, propagate, validate, Verdict}
use repodocs_go.Recovery.Planner.{refine_with, plan, Attempt}
use repodocs_go.Base.{
  ◌-◌, refl, [], ◌==◌, ◌&&◌, inr, false, ◌∷◌, ltb, inl, ℕ, not, Bool-cases, ◌⊎◌, ◌||◌, true, String,
  ◌≡◌, Option, List,
}
use text.Mathlib.Text.{◌==◌ as str_eq}
use repodocs_go.Recovery.Validator.{ok}
use repodocs_go.App.Fallback.{
  is_tried, Orchestrator, OrchestratorOptions, Progress, stopped, going, Returned, attempt_key,
  is_ok, try_candidates, probe_tier, fall_back, run_with_fallback, try_fallback, then_probe,
  judged_by, concluded, validation_opts, max_fallback_attempts,
}

-- The initial attempt by itself: its result, its verdict, its error and the world after it.
abbrev pub alone : {W : Type 0} → Orchestrator W → OrchestratorOptions → Attempt → W → Returned W
alone o opts initial w =
    let (result, err, w') = o.exec_attempt initial w in
    let (verdict, result') =
      validate o.validator (o.clock w') result err (validation_opts initial opts) in
    (result', verdict, err, w')

module _ {W : Type 0} (o : Orchestrator W) (opts : OrchestratorOptions) where
  -- Some attempt, run in some world, was accepted with this result and left this world.
  abbrev pub Accepted : Option StrategyResult → Verdict → W → Type 0
  Accepted r v w =
      (alt : Attempt) × (u : W) × (is_ok v ≡ true)
      × (alone o opts alt u ≡ (r, v, (alone o opts alt u).2, w))

  -- The context has ended in the world that was left, and its error is the verdict's cause.
  abbrev pub Cancelled : Verdict → W → Type 0
  Cancelled v w = (is_nil (o.ctx_err w) ≡ false) × (v ≡ propagate (o.ctx_err w))

  -- The three ways in which the run can end, told beside the outcome of the initial attempt.
  abbrev pub Surfaced : Returned W → Returned W → Type 0
  Surfaced first last =
      ((last.0 ≡ first.0) × (last.1 ≡ first.1) × (last.2 ≡ first.2))
      ⊎ (Accepted last.0 last.1 last.3 × (last.2 ≡ nil))
      ⊎ (Cancelled last.1 last.3 × (last.2 ≡ nil))

  abbrev Stops : Option StrategyResult → Verdict → W → Type 0
  Stops r v w = Accepted r v w ⊎ Cancelled v w

  abbrev Good : Progress W → Type 0
  Good (stopped r v w) = Stops r v w
  Good (going tried budget w) = Unit

  try_fallback-Stops :
      (alt : Attempt) (w : W)
      → (try_fallback o opts alt w).2 ≡ true
      → Stops
          (try_fallback o opts alt w).0
          (try_fallback o opts alt w).1
          (try_fallback o opts alt w).3
  unfolding try_fallback
  try_fallback-Stops alt w h =
      let c = o.ctx_err (o.exec_attempt alt w).2 in
      elim (Bool-cases (is_nil c)) [
        | inl live ↦ rw live (inl (alt, w, rw live at h, refl))
        | inr done ↦ rw done (inr (done, refl))
      ]

  candidates-Good :
      (alts : List Attempt) (tried : List String) (budget : ℕ) (w : W)
      → Good (try_candidates o opts alts tried budget w)
  unfolding try_candidates
  candidates-Good [] tried budget w = tt
  candidates-Good (alt ∷ alts) tried budget w =
      let new = try_fallback o opts alt w in
      elim (Bool-cases (budget == 0 || not (is_nil (o.ctx_err w)))) [
        | inl over ↦ rw over tt
        | inr more ↦ elim (Bool-cases (is_tried (attempt_key alt) tried)) [
          | inl old ↦ rw (more, old) (candidates-Good alts tried budget w)
          | inr fresh ↦ elim (Bool-cases new.2) [
            | inl done ↦ rw (more, fresh, done) (try_fallback-Stops alt w done)
            | inr next ↦
                rw (more, fresh, next)
                  (candidates-Good alts (attempt_key alt ∷ tried) (budget - 1) new.3)
          ]
        ]
      ]

  probe_tier-Good :
      (initial : Attempt) (tried : List String) (budget : ℕ) (w : W)
      → Good (probe_tier o opts initial tried budget w)
  unfolding probe_tier
  probe_tier-Good initial tried budget w =
      let (probes, w') = o.run_probes initial w in
      elim (Bool-cases (ltb 0 budget && is_nil (o.ctx_err w))) [
        | inl probing ↦ rw probing (candidates-Good (refine_with initial probes) tried budget w')
        | inr over ↦ rw over tt
      ]

  then_probe-Good :
      (initial : Attempt) (p : Progress W) → Good p → Good (then_probe o opts initial p)
  then_probe-Good initial (stopped r v w) h = h
  then_probe-Good initial (going tried budget w) h = probe_tier-Good initial tried budget w

  concluded-Surfaced :
      (result : Option StrategyResult) (verdict : Verdict) (err : Error) (w : W) (p : Progress W)
      → Good p
      → Surfaced (result, verdict, err, w) (concluded o opts result verdict err p)
  concluded-Surfaced result verdict err w (going tried budget w') h = inl (refl, refl, refl)
  concluded-Surfaced result verdict err w (stopped r v w') (inl good) = inr (inl (good, refl))
  concluded-Surfaced result verdict err w (stopped r v w') (inr done) = inr (inr (done, refl))

  judged-Surfaced :
      (initial : Attempt) (result : Option StrategyResult) (err : Error) (w : W) (v : Verdict)
      → Surfaced (result, v, err, w) (judged_by o opts initial result err w v)
  unfolding fall_back
  judged-Surfaced initial result err w (retry_alternative reason ds) =
      elim (Bool-cases (opts.no_fallback || not (str_eq opts.strategy_override ""))) [
        | inl off ↦ rw off (inl (refl, refl, refl))
        | inr allowed ↦ rw allowed (
            concluded-Surfaced result (retry_alternative reason ds) err w _ (
              then_probe-Good initial _ (
                candidates-Good (plan o.parse initial reason (snapshot result))
                  (attempt_key initial ∷ []) max_fallback_attempts w)))
      ]
  judged-Surfaced initial result err w ok = inl (refl, refl, refl)
  judged-Surfaced initial result err w (hard_fail reason cause) = inl (refl, refl, refl)
  judged-Surfaced initial result err w (propagate cause) = inl (refl, refl, refl)

  -- A run with fallbacks returns the result, verdict and error of the initial attempt; or no error and
  -- the result of an attempt whose own validation accepts it, with that verdict, in the world that it
  -- left; or no error and the verdict to propagate the error that the context has in the world that is
  -- left. So the rejected outcome of an alternative is surfaced only under a context that has ended.
  pub run-Surfaced :
      (initial : Attempt) (w : W)
      → Surfaced (alone o opts initial w) (run_with_fallback o opts initial w)
  unfolding run_with_fallback
  run-Surfaced initial w =
      let (result, verdict, err, w') = alone o opts initial w in
      judged-Surfaced initial result err w' verdict

  judged_off :
      (initial : Attempt) (result : Option StrategyResult) (err : Error) (w : W) (v : Verdict)
      → (opts.no_fallback || not (str_eq opts.strategy_override "")) ≡ true
      → judged_by o opts initial result err w v ≡ (result, v, err, w)
  judged_off initial result err w (retry_alternative reason ds) off = rw off refl
  judged_off initial result err w ok off = refl
  judged_off initial result err w (hard_fail reason cause) off = refl
  judged_off initial result err w (propagate cause) off = refl

  -- With `--no-fallback`, or with a strategy that was forced, nothing runs but the initial attempt:
  -- its outcome is returned, and the world is as that attempt left it.
  pub run_suppressed :
      (initial : Attempt) (w : W)
      → (opts.no_fallback || not (str_eq opts.strategy_override "")) ≡ true
      → run_with_fallback o opts initial w ≡ alone o opts initial w
  unfolding run_with_fallback
  run_suppressed initial w off =
      let (result, verdict, err, w') = alone o opts initial w in
      judged_off initial result err w' verdict off
