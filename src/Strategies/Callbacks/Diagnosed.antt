-- ===== src/Strategies/Callbacks/Diagnosed.antt =====
-- internal/strategies: callbacks that do not report that all fetches failed.
use mathlib.Core.List.{Perm}
use repodocs_go.Base.{
  false, true, ◌∙◌, if◌then◌else◌, ap, Bool, Option, ◌≡◌, refl, ◌+◌, ◌++◌, [], ◌∷◌, some, arith,
  List, String, ℕ,
}
use repodocs_go.Domain.Result.{
  all_fetches_failed, add_diagnostic, completed_docs, snapshot, call, StrategyResult, Call, calls,
  new_strategy_result,
}
use repodocs_go.Domain.Result.Tally.{call-some, total, total-perm}
use repodocs_go.Domain.Result.Diagnosed.{diagnosed_by, all_failed_said, calls-diagnosed}
use repodocs_go.Strategies.Callbacks.{
  Outcome, skipped, failed, dry, written, outcome_calls, item_calls,
}
use repodocs_go.Strategies.Callbacks.Tally.{total-append}

pub outcome-silent : (o : Outcome) → total diagnosed_by (outcome_calls o) ≡ 0
outcome-silent skipped = refl
outcome-silent failed = refl
outcome-silent dry = refl
outcome-silent (written n) = refl

module _ {T : Type 0} (calls_of : T → List Call)
    (silent : (t : T) → total diagnosed_by (calls_of t) ≡ 0) where
  items-silent : (ts : List T) → total diagnosed_by (item_calls calls_of ts) ≡ 0
  items-silent [] = refl
  items-silent (t ∷ ts) = omega (
    arith,
    items-silent ts,
    silent t,
    total-append diagnosed_by (calls_of t) (item_calls calls_of ts),
  )

  -- On a new result, in any order.
  pub callbacks-silent :
      (strategy entry_url : String) (now : ℕ) (before cs : List Call) (ts : List T)
      → Perm cs (item_calls calls_of ts)
      → all_failed_said (calls (before ++ cs) (some (new_strategy_result strategy entry_url now)))
        ≡ total diagnosed_by before
  callbacks-silent strategy entry_url now before cs ts same = omega (
    arith,
    calls-diagnosed (before ++ cs) (new_strategy_result strategy entry_url now),
    total-append diagnosed_by before cs,
    total-perm diagnosed_by same,
    items-silent ts,
  )

-- The counters of two results are the same.
pub record SameCounts (r s : Option StrategyResult) : Type 0 where
  pub discovered : (snapshot s).urls_discovered ≡ (snapshot r).urls_discovered
  pub attempted : (snapshot s).urls_attempted ≡ (snapshot r).urls_attempted
  pub failed_docs : (snapshot s).docs_failed ≡ (snapshot r).docs_failed
  pub completed : completed_docs s ≡ completed_docs r

pub calls-some :
    (cs : List Call) (r : StrategyResult) → (s : StrategyResult) × (calls cs (some r) ≡ some s)
calls-some [] r = (r, refl)
calls-some (c ∷ cs) r =
    let (s, e) = call-some c r in let (t, f) = calls-some cs s in (t, ap (calls cs) e ∙ f)

-- The diagnostic at the end of a run, where it is given.
pub diagnose-SameCounts :
    (b : Bool) (text hint : String) (r : StrategyResult)
    → let s = if b then call (add_diagnostic all_fetches_failed text hint) (some r) else some r in
      SameCounts (some r) s × (all_failed_said s ≡ all_failed_said (some r) + (if b then 1 else 0))
unfolding call
diagnose-SameCounts true text hint r =
    (omega arith, calls-diagnosed (add_diagnostic all_fetches_failed text hint ∷ []) r)
diagnose-SameCounts false text hint r = (omega arith, omega arith)
