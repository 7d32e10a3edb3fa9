-- ===== src/Domain/Result/Tests.antt =====
-- internal/domain/strategy_result.go: a run of a result.
use repodocs_go.Base.{refl, ◌≡◌, [], ◌∷◌, some}
use repodocs_go.Domain.Result.{finish, call, calls, snapshot, new_strategy_result}

-- The first `Finish` fixes the duration.
finished_once :
    (snapshot (calls (finish 7 ∷ finish 9 ∷ []) (some (new_strategy_result "git" "u" 2)))).duration
    ≡ 5
unfolding call
finished_once = refl
