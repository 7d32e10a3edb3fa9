-- ===== src/Domain/Result/Diagnosed.antt =====
-- internal/domain/strategy_result.go: which calls report that all fetches failed.
use repodocs_go.Base.{◌≡◌, ◌+◌, ap, arith, ℕ, List, [], ◌∷◌, ◌++◌, Option, some}
use repodocs_go.Domain.Result.{
  Call, finish, add_diagnostic, add_discovered, add_attempted, add_bytes_written, inc_written,
  inc_skipped, inc_failed, DiagnosticCode, all_fetches_failed, Diagnostic, StrategyResult, call,
  calls, snapshot,
}
use repodocs_go.Domain.Result.Tally.{total, call-some}

abbrev pub says_all_failed : DiagnosticCode → ℕ
says_all_failed all_fetches_failed = 1
says_all_failed _ = 0

abbrev pub diagnosed_by : Call → ℕ
diagnosed_by (add_diagnostic code message hint) = says_all_failed code
diagnosed_by _ = 0

-- How many of the diagnostics say so.
abbrev pub all_failed_in : List Diagnostic → ℕ
all_failed_in [] = 0
all_failed_in (d ∷ ds) = says_all_failed d.code + all_failed_in ds

all_failed_in-snoc :
    (ds : List Diagnostic) (d : Diagnostic)
    → all_failed_in (ds ++ d ∷ []) ≡ all_failed_in ds + says_all_failed d.code
all_failed_in-snoc [] d = omega arith
all_failed_in-snoc (e ∷ ds) d = omega (arith, all_failed_in-snoc ds d)

abbrev pub all_failed_said : Option StrategyResult → ℕ
all_failed_said r = all_failed_in (snapshot r).diagnostics

step-diagnosed :
    (c : Call) (r : StrategyResult)
    → all_failed_said (call c (some r)) ≡ all_failed_said (some r) + diagnosed_by c
unfolding call
step-diagnosed (add_diagnostic code message hint) r =
    all_failed_in-snoc r.now_at.diagnostics (record { code = code; message = message; hint = hint })
step-diagnosed (finish now) r = omega arith
step-diagnosed (add_discovered n) r = omega arith
step-diagnosed (add_attempted n) r = omega arith
step-diagnosed (add_bytes_written n) r = omega arith
step-diagnosed inc_written r = omega arith
step-diagnosed inc_skipped r = omega arith
step-diagnosed inc_failed r = omega arith

pub calls-diagnosed :
    (cs : List Call) (r : StrategyResult)
    → all_failed_said (calls cs (some r)) ≡ all_failed_said (some r) + total diagnosed_by cs
calls-diagnosed [] r = omega arith
calls-diagnosed (c ∷ cs) r =
    let (s, e) = call-some c r in
    rw e (omega (arith, calls-diagnosed cs s, step-diagnosed c r, ap all_failed_said e))
