-- ===== src/Strategies.antt =====
-- internal/strategies: what a strategy does with the addresses that it finds.
pub mod Callbacks
pub mod Crawler
pub mod Git
pub mod Llms
pub mod Sitemap
pub mod GithubPages
