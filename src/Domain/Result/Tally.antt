-- ===== src/Domain/Result/Tally.antt =====
-- internal/domain/strategy_result.go: the counters count the calls, and in any order.
use repodocs_go.Base.{
  ◌∙◌, ap, subst, refl, String, [], ◌∷◌, ◌+◌, ◌≡◌, clamp_zero, arith, List, ℕ, some, Option,
}
use mathlib.Core.List.{Perm, Permᴰ}
use mathlib.Core.Logic.{∥∥₁_elim}
use native.Mathlib.Nat.{ℕ_set}
use repodocs_go.Domain.Result.{
  Call, finish, add_discovered, add_attempted, inc_written, inc_skipped, inc_failed, StrategyResult,
  call, calls, snapshot, new_strategy_result, completed_docs,
}

-- What a row of calls adds to the counters, each by itself.
abbrev pub written_by : Call → ℕ
written_by inc_written = 1
written_by _ = 0

abbrev pub skipped_by : Call → ℕ
skipped_by inc_skipped = 1
skipped_by _ = 0

abbrev pub failed_by : Call → ℕ
failed_by inc_failed = 1
failed_by _ = 0

abbrev pub discovered_by : Call → ℕ
discovered_by (add_discovered n) = clamp_zero n
discovered_by _ = 0

abbrev pub attempted_by : Call → ℕ
attempted_by (add_attempted n) = clamp_zero n
attempted_by _ = 0

abbrev pub total : (Call → ℕ) → List Call → ℕ
total f [] = 0
total f (c ∷ cs) = f c + total f cs

record Counts (r s : Option StrategyResult) (w k f d a : ℕ) : Type 0 where
  written : (snapshot s).docs_written ≡ (snapshot r).docs_written + w
  skipped : (snapshot s).docs_skipped ≡ (snapshot r).docs_skipped + k
  failed : (snapshot s).docs_failed ≡ (snapshot r).docs_failed + f
  discovered : (snapshot s).urls_discovered ≡ (snapshot r).urls_discovered + d
  attempted : (snapshot s).urls_attempted ≡ (snapshot r).urls_attempted + a

step-Counts :
    (c : Call) (r : StrategyResult)
    → Counts
        (some r)
        (call c (some r))
        (written_by c)
        (skipped_by c)
        (failed_by c)
        (discovered_by c)
        (attempted_by c)
unfolding call
step-Counts (finish now) r = omega arith
step-Counts _ r = omega arith

-- A call on a result that is there leaves it there.
pub call-some : (c : Call) (r : StrategyResult) → (s : StrategyResult) × (call c (some r) ≡ some s)
unfolding call
call-some c r = (_, refl)

calls_count :
    (cs : List Call) (r : StrategyResult)
    → Counts
        (some r)
        (calls cs (some r))
        (total written_by cs)
        (total skipped_by cs)
        (total failed_by cs)
        (total discovered_by cs)
        (total attempted_by cs)
calls_count [] r = omega arith
calls_count (c ∷ cs) r =
    let (s, e) = call-some c r in
    let step =
      subst
        (λ x.
          Counts (some r) x (written_by c) (skipped_by c) (failed_by c) (discovered_by c)
            (attempted_by c))
        e (step-Counts c r) in
    let rest = calls_count cs s in rw e (omega arith)

total-permᴰ : (f : Call → ℕ) {cs ds : List Call} → Permᴰ cs ds → total f cs ≡ total f ds
total-permᴰ f Permᴰ.nil = refl
total-permᴰ f (Permᴰ.cons e p) = omega (arith, ap f e, total-permᴰ f p)
total-permᴰ f (Permᴰ.swap e e') = omega (arith, ap f e, ap f e')
total-permᴰ f (Permᴰ.trans p q) = total-permᴰ f p ∙ total-permᴰ f q

pub total-perm : (f : Call → ℕ) {cs ds : List Call} → Perm cs ds → total f cs ≡ total f ds
total-perm f p = ∥∥₁_elim p (ℕ_set _ _) (total-permᴰ f)

completed-calls :
    (cs : List Call) (r : StrategyResult)
    → completed_docs (calls cs (some r))
      ≡ (snapshot (calls cs (some r))).docs_written + (snapshot (calls cs (some r))).docs_skipped
completed-calls [] r = refl
completed-calls (c ∷ cs) r = let (s, e) = call-some c r in rw e (completed-calls cs s)

-- However the calls of the goroutines of a run interleave, the result counts the same documents and
-- URLs: those that the calls report, all of them, and what `CompletedDocs` says is what was written
-- and what was skipped.
pub calls_any_order :
    (strategy entry_url : String) (now : ℕ) (cs ds : List Call)
    → Perm cs ds
    → let r = some (new_strategy_result strategy entry_url now) in
      (completed_docs (calls cs r) ≡ total written_by ds + total skipped_by ds)
      × ((snapshot (calls cs r)).docs_failed ≡ total failed_by ds)
      × ((snapshot (calls cs r)).urls_discovered ≡ total discovered_by ds)
      × ((snapshot (calls cs r)).urls_attempted ≡ total attempted_by ds)
calls_any_order strategy entry_url now cs ds p =
    let r = new_strategy_result strategy entry_url now in
    let n = calls_count cs r in
    (
      omega (
        arith,
        n.written,
        n.skipped,
        completed-calls cs r,
        total-perm written_by p,
        total-perm skipped_by p,
      ),
      omega (arith, n.failed, total-perm failed_by p),
      omega (arith, n.discovered, total-perm discovered_by p),
      omega (arith, n.attempted, total-perm attempted_by p),
    )
