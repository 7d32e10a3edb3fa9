-- ===== src/App.antt =====
-- internal/app: choosing a strategy, running it, and falling back on others.
pub mod Strategy
pub mod Detect
pub mod Fallback
pub mod Run
pub mod Manifest
