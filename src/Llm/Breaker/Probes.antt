-- ===== src/Llm/Breaker/Probes.antt =====
-- internal/llm/circuit_breaker.go: the probes that a breaker admits after its reset timeout, and how
-- their outcomes close it or open it again.
use repodocs_go.Base.{ℕ, suc, Bool, true, false, List, [], ◌∷◌}

abbrev pub count_true : List Bool → ℕ
count_true [] = 0
count_true (true ∷ bs) = suc (count_true bs)
count_true (false ∷ bs) = count_true bs
