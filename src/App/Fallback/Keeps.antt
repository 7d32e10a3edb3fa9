-- ===== src/App/Fallback/Keeps.antt =====
-- internal/app/fallback.go: what a run with fallbacks leaves alone.
use repodocs_go.App.Fallback.Outcome.{alone}
use repodocs_go.Domain.Errors.{Error, is_nil}
use repodocs_go.Domain.Result.{snapshot, StrategyResult}
use repodocs_go.Recovery.Validator.{retry_alternative, hard_fail, Verdict, ok, propagate}
use repodocs_go.Recovery.Planner.{plan, refine_with, Attempt}
use repodocs_go.App.Fallback.{
  str_eq, max_fallback_attempts, then_probe, judged_by, concluded, attempt_key, is_tried, going,
  try_fallback, try_candidates, stopped, probe_tier, fall_back, Orchestrator, OrchestratorOptions,
  Progress, run_with_fallback,
}
use repodocs_go.Base.{
  [], ◌-◌, refl, inl, not, inr, ◌||◌, ◌&&◌, ◌==◌, ltb, ◌∷◌, Bool-cases, ◌∙◌, String, List, ◌≡◌,
  Option, ℕ,
}

-- A view of the world that running strategies and probes leaves as it is.
pub record IsUntouched {W D : Type 0} (o : Orchestrator W) (view : W → D) : Type 0 where
  pub attempts : (a : Attempt) (w : W) → view (o.exec_attempt a w).2 ≡ view w
  pub probes : (a : Attempt) (w : W) → view (o.run_probes a w).1 ≡ view w

module _ {W D : Type 0} (o : Orchestrator W) (opts : OrchestratorOptions) (view : W → D)
    (untouched : IsUntouched o view) where
  abbrev view_of : Progress W → D
  view_of (stopped r v w) = view w
  view_of (going tried budget w) = view w

  try_fallback-keeps : (alt : Attempt) (w : W) → view (try_fallback o opts alt w).3 ≡ view w
  unfolding try_fallback
  try_fallback-keeps alt w = elim (Bool-cases (is_nil (o.ctx_err (o.exec_attempt alt w).2))) [
    | inl live ↦ rw live (untouched.attempts alt w)
    | inr done ↦ rw done (untouched.attempts alt w)
  ]

  candidates-keep :
      (alts : List Attempt) (tried : List String) (budget : ℕ) (w : W)
      → view_of (try_candidates o opts alts tried budget w) ≡ view w
  unfolding try_candidates
  candidates-keep [] tried budget w = refl
  candidates-keep (alt ∷ alts) tried budget w =
      elim (Bool-cases (budget == 0 || not (is_nil (o.ctx_err w)))) [
        | inl over ↦ rw over refl
        | inr more ↦ elim (Bool-cases (is_tried (attempt_key alt) tried)) [
          | inl again ↦ rw (more, again) (candidates-keep alts tried budget w)
          | inr fresh ↦ elim (Bool-cases (try_fallback o opts alt w).2) [
            | inl done ↦ rw (more, fresh, done) (try_fallback-keeps alt w)
            | inr next ↦
                rw (more, fresh, next)
                  (candidates-keep alts (attempt_key alt ∷ tried) (budget - 1)
                      (try_fallback o opts alt w).3
                    ∙ try_fallback-keeps alt w)
          ]
        ]
      ]

  probe_tier-keeps :
      (initial : Attempt) (tried : List String) (budget : ℕ) (w : W)
      → view_of (probe_tier o opts initial tried budget w) ≡ view w
  unfolding probe_tier
  probe_tier-keeps initial tried budget w =
      elim (Bool-cases (ltb 0 budget && is_nil (o.ctx_err w))) [
        | inr over ↦ rw over refl
        | inl more ↦ rw more (
            candidates-keep (refine_with initial (o.run_probes initial w).0) tried budget
              (o.run_probes initial w).1
            ∙ untouched.probes initial w)
      ]

  then_probe-keeps :
      (initial : Attempt) (p : Progress W) → view_of (then_probe o opts initial p) ≡ view_of p
  then_probe-keeps initial (stopped r v w) = refl
  then_probe-keeps initial (going tried budget w) = probe_tier-keeps initial tried budget w

  concluded-keeps :
      (result : Option StrategyResult) (verdict : Verdict) (err : Error) (p : Progress W)
      → view (concluded o opts result verdict err p).3 ≡ view_of p
  concluded-keeps result verdict err (stopped r v w) = refl
  concluded-keeps result verdict err (going tried budget w) = refl

  judged-keeps :
      (initial : Attempt) (result : Option StrategyResult) (err : Error) (w : W) (v : Verdict)
      → view (judged_by o opts initial result err w v).3 ≡ view w
  unfolding fall_back
  judged-keeps initial result err w ok = refl
  judged-keeps initial result err w (propagate cause) = refl
  judged-keeps initial result err w (hard_fail reason cause) = refl
  judged-keeps initial result err w (retry_alternative reason ds) =
      let first =
        try_candidates o opts (plan o.parse initial reason (snapshot result))
          (attempt_key initial ∷ []) max_fallback_attempts w in
      elim (Bool-cases (opts.no_fallback || not (str_eq opts.strategy_override ""))) [
        | inl off ↦ rw off refl
        | inr on ↦ rw on (
            concluded-keeps result (retry_alternative reason ds) err
              (then_probe o opts initial first)
            ∙ then_probe-keeps initial first
            ∙ candidates-keep (plan o.parse initial reason (snapshot result))
                (attempt_key initial ∷ []) max_fallback_attempts w)
      ]

  pub run_with_fallback-keeps :
      (initial : Attempt) (w : W) → view (run_with_fallback o opts initial w).3 ≡ view w
  unfolding run_with_fallback
  run_with_fallback-keeps initial w =
      let (result, verdict, err, w') = alone o opts initial w in
      judged-keeps initial result err w' verdict ∙ untouched.attempts initial w
