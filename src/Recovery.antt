-- ===== src/Recovery.antt =====
-- internal/recovery: judging the outcome of a strategy, and planning what to try next.
pub mod Validator
pub mod Planner
pub mod FetchCache
pub mod Ancestors
