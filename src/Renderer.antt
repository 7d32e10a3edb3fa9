-- ===== src/Renderer.antt =====
-- internal/renderer: the pool of browser tabs.
pub mod Pool
