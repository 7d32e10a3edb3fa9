-- ===== src/Llm.antt =====
-- internal/llm: the circuit breaker, the rate limiter, the retrier and the provider that joins them.
pub mod Breaker
pub mod Bucket
pub mod Env
pub mod Retry
pub mod Provider
