-- ===== src/Domain/Errors/Tests.antt =====
-- internal/domain/errors.go: which errors are retried, at concrete errors.
use repodocs_go.Base.{refl, pos, false, true, ◌≡◌}
use repodocs_go.Domain.Errors.{
  strategy_error, timeout, nil, sentinel, fetch_error, retryable_error, is_retryable,
}

retried_errors :
    (is_retryable (fetch_error "u" 525 nil) ≡ true)
    × (is_retryable (fetch_error "u" 404 (sentinel timeout)) ≡ true)
    × (is_retryable (fetch_error "u" 500 nil) ≡ false)
    × (is_retryable (strategy_error "git" "u" (retryable_error nil (pos 0))) ≡ true)
unfolding is_retryable
retried_errors = (refl, refl, refl, refl)
