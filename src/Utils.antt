-- ===== src/Utils.antt =====
-- internal/utils: helpers that the strategies share.
pub mod Parallel
pub mod Url
