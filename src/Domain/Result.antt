-- ===== src/Domain/Result.antt =====
-- internal/domain/strategy_result.go. Every method takes the result's lock for its whole body, so that
-- a call is one step; a nil receiver is `none`. The counters are numbers without the bound of an int.
pub mod Tally
pub mod Diagnosed
mod Tests
use text.Mathlib.Text.{◌==◌ as str_eq}
use repodocs_go.Base.{
  ℕ, ◌+◌, ◌-◌, Bool, true, false, ◌&&◌, String, List, [], ◌∷◌, ◌++◌, Option, none, some, ◌==◌,
  if◌then◌else◌, ℤ, clamp_zero,
}

pub data DiagnosticCode : Type 0 where
  filter_zeroed sitemap_shallow all_fetches_failed all_fetches_blocked : DiagnosticCode
  empty_content redirect_loop js_required no_documents : DiagnosticCode

pub record Diagnostic : Type 0 where
  pub code : DiagnosticCode
  pub message : String
  pub hint : String

-- The fields of StrategyResult that its snapshot copies.
pub record Snapshot : Type 0 where
  pub strategy : String
  pub entry_url : String
  pub urls_discovered : ℕ
  pub urls_attempted : ℕ
  pub docs_written : ℕ
  pub docs_skipped : ℕ
  pub docs_failed : ℕ
  pub bytes_written : ℕ
  pub diagnostics : List Diagnostic
  pub duration : ℕ

-- `started_at` is `none` for the zero time.
pub record StrategyResult : Type 0 where
  pub started_at : Option ℕ
  pub now_at : Snapshot

abbrev pub zero_snapshot : String → String → Snapshot
zero_snapshot strategy entry_url = record {
  strategy = strategy;
  entry_url = entry_url;
  urls_discovered = 0;
  urls_attempted = 0;
  docs_written = 0;
  docs_skipped = 0;
  docs_failed = 0;
  bytes_written = 0;
  diagnostics = [];
  duration = 0;
}

abbrev pub new_strategy_result : String → String → ℕ → StrategyResult
new_strategy_result strategy entry_url now = record {
  started_at = some now;
  now_at = zero_snapshot strategy entry_url;
}

-- A method that changes the result: its calls are the constructors, a number its argument.
pub data Call : Type 0 where
  finish : ℕ → Call
  add_discovered add_attempted add_bytes_written : ℤ → Call
  inc_written inc_skipped inc_failed : Call
  add_diagnostic : DiagnosticCode → String → String → Call

-- `IncDiscovered` and `IncAttempted`.
abbrev pub inc_discovered : Call
inc_discovered = add_discovered (ℤ.pos 1)

abbrev pub inc_attempted : Call
inc_attempted = add_attempted (ℤ.pos 1)

abbrev elapsed_at : ℕ → Option ℕ → ℕ
elapsed_at now none = 0
elapsed_at now (some t) = now - t

-- The body of each method. `n <= 0` returns early, which adds nothing.
change : Call → StrategyResult → StrategyResult
change (finish now) r =
    let s = r.now_at in
    record r {
      now_at = record s {
        duration = if s.duration == 0 then elapsed_at now r.started_at else s.duration;
      };
    }
change (add_discovered n) r =
    let s = r.now_at in
    record r { now_at = record s { urls_discovered = s.urls_discovered + clamp_zero n } }
change (add_attempted n) r =
    let s = r.now_at in
    record r { now_at = record s { urls_attempted = s.urls_attempted + clamp_zero n } }
change (add_bytes_written n) r =
    let s = r.now_at in
    record r { now_at = record s { bytes_written = s.bytes_written + clamp_zero n } }
change inc_written r =
    let s = r.now_at in record r { now_at = record s { docs_written = s.docs_written + 1 } }
change inc_skipped r =
    let s = r.now_at in record r { now_at = record s { docs_skipped = s.docs_skipped + 1 } }
change inc_failed r =
    let s = r.now_at in record r { now_at = record s { docs_failed = s.docs_failed + 1 } }
change (add_diagnostic code message hint) r =
    let s = r.now_at in
    let d : Diagnostic = record { code = code; message = message; hint = hint } in
    record r { now_at = record s { diagnostics = s.diagnostics ++ d ∷ [] } }

unfoldable pub call : Call → Option StrategyResult → Option StrategyResult
unfolding change
call c none = none
call c (some r) = some (change c r)

-- `Snapshot`, of a nil result too.
abbrev pub snapshot : Option StrategyResult → Snapshot
snapshot none = zero_snapshot "" ""
snapshot (some r) = r.now_at

-- `CompletedDocs`
abbrev pub completed_docs : Option StrategyResult → ℕ
completed_docs none = 0
completed_docs (some r) = r.now_at.docs_written + r.now_at.docs_skipped

-- The calls of all goroutines, in the order in which they take the lock.
abbrev pub calls : List Call → Option StrategyResult → Option StrategyResult
calls [] r = r
calls (c ∷ cs) r = calls cs (call c r)
