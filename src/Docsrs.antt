-- ===== src/Docsrs.antt =====
-- internal/strategies/docsrs_types.go and docsrs_renderer.go: rustdoc's JSON for a crate, and the
-- Markdown made of it.
pub mod Json
pub mod Types
pub mod Render
pub mod Item
pub mod Contents
pub mod Page
