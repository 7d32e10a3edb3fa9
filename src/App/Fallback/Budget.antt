-- ===== src/App/Fallback/Budget.antt =====
-- internal/app/fallback.go: how often strategies run, and that none runs twice the same way.
use repodocs_go.Domain.Result.{snapshot, StrategyResult}
use repodocs_go.Recovery.Validator.{ok, propagate, hard_fail, retry_alternative, Verdict, validate}
use repodocs_go.Domain.Errors.{Error, is_nil}
use repodocs_go.Recovery.Planner.{plan, refine_with, Attempt}
use repodocs_go.Base.{
  ap, sym, ◌&&◌, subst, arith, ◌-◌, refl, ltb, Option, Bool, inr, inl, not, ◌||◌, ◌==◌, ◌+◌, false,
  Bool-cases, ◌≤◌, ◌≡◌, ℕ, [], ◌∷◌, length, String, List,
}
use text.Mathlib.Text.{◌==◌ as str_eq}
use repodocs_go.App.Fallback.{
  concluded, validation_opts, Orchestrator, OrchestratorOptions, Progress, stopped, going,
  attempt_key, is_tried, try_candidates, probe_tier, fall_back, run_with_fallback, try_fallback,
  then_probe, judged_by,
}

-- The same orchestrator with a record of the attempts that it ran, the latest first.
abbrev pub recorded : {W : Type 0} → Orchestrator W → Orchestrator (W × List Attempt)
recorded o = record {
  exec_attempt = λ a w.
      ((o.exec_attempt a w.0).0, (o.exec_attempt a w.0).1, ((o.exec_attempt a w.0).2, a ∷ w.1));
  ctx_err = λ w. o.ctx_err w.0;
  clock = λ w. o.clock w.0;
  run_probes = λ a w. ((o.run_probes a w.0).0, ((o.run_probes a w.0).1, w.1));
  parse = o.parse;
  validator = o.validator;
}

abbrev pub keys : List Attempt → List String
keys [] = []
keys (a ∷ earlier) = attempt_key a ∷ keys earlier

-- No two of the attempts have the same strategy, URL and filter, as their keys tell.
abbrev pub Distinct : List Attempt → Type 0
Distinct [] = Unit
Distinct (a ∷ earlier) = (is_tried (attempt_key a) (keys earlier) ≡ false) × Distinct earlier

module _ {W : Type 0} (o : Orchestrator W) (opts : OrchestratorOptions) where
  -- What holds between two candidates, and where the loop stopped.
  abbrev Within : Progress (W × List Attempt) → Type 0
  Within (stopped r v w) = Distinct w.1 × (length w.1 ≤ 3)
  Within (going tried budget w) = Distinct w.1 × (tried ≡ keys w.1) × (length w.1 + budget ≡ 3)

  try_fallback-log :
      (alt : Attempt) (w : W × List Attempt)
      → (try_fallback (recorded o) opts alt w).3.1 ≡ alt ∷ w.1
  unfolding try_fallback
  try_fallback-log alt w = elim (Bool-cases (is_nil (o.ctx_err (o.exec_attempt alt w.0).2))) [
    | inl live ↦ rw live refl
    | inr done ↦ rw done refl
  ]

  Within-stopped :
      (r : Option StrategyResult) (v : Verdict) (alt : Attempt) (budget : ℕ)
      (w w' : W × List Attempt)
      → Distinct w.1
      → length w.1 + budget ≡ 3
      → (budget == 0) ≡ false
      → is_tried (attempt_key alt) (keys w.1) ≡ false
      → w'.1 ≡ alt ∷ w.1
      → Within (stopped r v w')
  Within-stopped r v alt budget w w' d n left fresh e =
      subst (λ l. Distinct l × (length l ≤ 3)) (sym e) ((fresh, d), ground arith)

  Within-going :
      (alt : Attempt) (tried : List String) (budget : ℕ) (w w' : W × List Attempt)
      → Within (going tried budget w)
      → (budget == 0) ≡ false
      → is_tried (attempt_key alt) tried ≡ false
      → w'.1 ≡ alt ∷ w.1
      → Within (going (attempt_key alt ∷ tried) (budget - 1) w')
  Within-going alt tried budget w w' (d, t, n) left fresh e =
      subst (λ l. Distinct l × ((attempt_key alt ∷ tried) ≡ keys l) × (length l + (budget - 1) ≡ 3))
        (sym e) ((rw t at fresh, d), ap (λ k. attempt_key alt ∷ k) t, ground arith)

  or_parts : (a b : Bool) → (a || b) ≡ false → a ≡ false
  or_parts a b h = ground arith

  candidates-Within :
      (alts : List Attempt) (tried : List String) (budget : ℕ) (w : W × List Attempt)
      → Within (going tried budget w)
      → Within (try_candidates (recorded o) opts alts tried budget w)
  unfolding try_candidates
  candidates-Within [] tried budget w h = h
  candidates-Within (alt ∷ alts) tried budget w h =
      let new = try_fallback (recorded o) opts alt w in
      elim (Bool-cases (budget == 0 || not (is_nil (o.ctx_err w.0)))) [
        | inl over ↦ rw over h
        | inr more ↦ elim (Bool-cases (is_tried (attempt_key alt) tried)) [
          | inl old ↦ rw (more, old) (candidates-Within alts tried budget w h)
          | inr fresh ↦
              let left = or_parts (budget == 0) (not (is_nil (o.ctx_err w.0))) more in
              elim (Bool-cases new.2) [
                | inl done ↦
                    rw (more, fresh, done)
                      (Within-stopped new.0 new.1 alt budget w new.3 h.0 h.2 left (rw h.1 at fresh)
                        (try_fallback-log alt w))
                | inr next ↦
                    rw (more, fresh, next)
                      (candidates-Within alts (attempt_key alt ∷ tried) (budget - 1) new.3 (
                        Within-going alt tried budget w new.3 h left fresh
                          (try_fallback-log alt w)))
              ]
        ]
      ]

  probe_tier-Within :
      (initial : Attempt) (tried : List String) (budget : ℕ) (w : W × List Attempt)
      → Within (going tried budget w)
      → Within (probe_tier (recorded o) opts initial tried budget w)
  unfolding probe_tier
  probe_tier-Within initial tried budget w h =
      elim (Bool-cases (ltb 0 budget && is_nil (o.ctx_err w.0))) [
        | inl probing ↦ rw probing (
            candidates-Within (refine_with initial (o.run_probes initial w.0).0) tried budget
              ((o.run_probes initial w.0).1, w.1) h)
        | inr over ↦ rw over h
      ]

  then_probe-Within :
      (initial : Attempt) (p : Progress (W × List Attempt))
      → Within p
      → Within (then_probe (recorded o) opts initial p)
  then_probe-Within initial (stopped r v w) h = h
  then_probe-Within initial (going tried budget w) h = probe_tier-Within initial tried budget w h

  concluded-bounded :
      (result : Option StrategyResult) (verdict : Verdict) (err : Error)
      (p : Progress (W × List Attempt))
      → Within p
      → let log = (concluded (recorded o) opts result verdict err p).3.1 in
        Distinct log × (length log ≤ 3)
  concluded-bounded result verdict err (stopped r v w) h = h
  concluded-bounded result verdict err (going tried budget w) h = (h.0, omega (arith, h.2))

  judged-bounded :
      (initial : Attempt) (result : Option StrategyResult) (err : Error) (w : W) (v : Verdict)
      → let log = (judged_by (recorded o) opts initial result err (w, initial ∷ []) v).3.1 in
        Distinct log × (length log ≤ 3)
  unfolding fall_back
  judged-bounded initial result err w (retry_alternative reason ds) =
      elim (Bool-cases (opts.no_fallback || not (str_eq opts.strategy_override ""))) [
        | inl off ↦ rw off ((refl, tt), omega arith)
        | inr allowed ↦ rw allowed (
            concluded-bounded result (retry_alternative reason ds) err _ (
              then_probe-Within initial _ (
                candidates-Within (plan o.parse initial reason (snapshot result))
                  (attempt_key initial ∷ []) 2 (w, initial ∷ []) ((refl, tt), refl, refl))))
      ]
  judged-bounded initial result err w ok = ((refl, tt), omega arith)
  judged-bounded initial result err w (hard_fail reason cause) = ((refl, tt), omega arith)
  judged-bounded initial result err w (propagate cause) = ((refl, tt), omega arith)

  -- A run with its fallbacks executes at most three attempts, the initial one and two alternatives,
  -- and no two of them with the same key of strategy, URL and filter, whatever verdicts the outcomes
  -- get, whatever the probes find and whenever the context is cancelled.
  pub run-bounded :
      (initial : Attempt) (w : W)
      → let log = (run_with_fallback (recorded o) opts initial (w, [])).3.1 in
        Distinct log × (length log ≤ 3)
  unfolding run_with_fallback
  run-bounded initial w =
      let (result, err, w') = o.exec_attempt initial w in
      let (verdict, result') =
        validate o.validator (o.clock w') result err (validation_opts initial opts) in
      judged-bounded initial result' err w' verdict
