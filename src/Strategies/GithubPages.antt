-- ===== src/Strategies/GithubPages.antt =====
-- internal/strategies/github_pages.go, internal/strategies/github_pages_discovery.go
pub mod Crawl
pub mod Filter
pub mod Probes
pub mod Pages
pub mod Discovery
