-- ===== src/Fetcher.antt =====
-- internal/fetcher: the retry loop of HTTP requests.
pub mod Retry
