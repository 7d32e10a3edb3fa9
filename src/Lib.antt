-- ===== src/Lib.antt =====
-- repodocs-go turns the documentation behind a URL into Markdown files. This library models the
-- parts of it that decide: which strategy runs and what happens when it finds nothing, when a
-- request to a language model is sent, retried or held back, which pages of an earlier run are
-- still current, which pages a sitemap, an llms.txt, a GitHub Pages site or a crawl leads to, and
-- what is written of an item of a Rust crate.
--
-- The parts, and the files of the repository that they come from:
--
--   Domain        internal/domain: the errors and how they are classified (errors.go, Domain/Errors),
--                 the counters of a run (strategy_result.go, Domain/Result).
--   Llm           internal/llm: the circuit breaker (circuit_breaker.go, Llm/Breaker), the token
--                 bucket (ratelimit.go, Llm/Bucket), the retry loop (retry.go, Llm/Retry), and the
--                 provider wrapper that composes the three (provider_wrapper.go, Llm/Provider).
--   State         internal/state: the record of processed pages (manager.go, models.go, State),
--                 the JSON that it is saved as (models.go, State/Json), and PruneDeletedFiles of
--                 internal/strategies/strategy.go (State/Prune).
--   Recovery      internal/recovery: the validator of a run's outcome (validator.go, errors.go,
--                 Recovery/Validator), the planner of what to try next (planner.go,
--                 Recovery/Planner), the cache that probes share (probe_cache.go,
--                 Recovery/FetchCache), and the directories that one of them asks in (probes.go,
--                 Recovery/Ancestors).
--   Fetcher       internal/fetcher: the retry loop of HTTP requests (retry.go, Fetcher/Retry).
--   Renderer      internal/renderer: the pool of browser tabs, with the steps of its methods
--                 interleaved (pool.go, Renderer/Pool).
--   App           internal/app: the fallback from one strategy to others (fallback.go, App/Fallback),
--                 Run around it (orchestrator.go, App/Run), RunManifest over many sources
--                 (orchestrator.go, App/Manifest), DetectStrategy (detector.go, App/Detect,
--                 with the tests of internal/strategies that it calls), and the table of strategies
--                 (detector.go, App/Strategy).
--   Docsrs        internal/strategies: a crate's rustdoc JSON (docsrs_types.go, Docsrs/Json and
--                 Docsrs/Types) and the Markdown made of an item (docsrs_renderer.go): types
--                 (Docsrs/Render), function signatures (Docsrs/Item), the contents of a module
--                 (Docsrs/Contents) and the page as a whole (Docsrs/Page).
--   Strategies    internal/strategies: reading a sitemap (sitemap.go, Strategies/Sitemap and, for plain
--                 text, Sitemap/Plain), the walk of indexes and the choice of URLs (Sitemap/Walk), and
--                 the processing of their pages (Sitemap/Pages); GitHub Pages sites
--                 (github_pages.go, github_pages_discovery.go), by probes (GithubPages/Probes) or a
--                 crawl with the browser (GithubPages/Crawl), the filters (GithubPages/Filter), the
--                 pages (GithubPages/Pages) and execute around them (GithubPages/Discovery); the
--                 links of an llms.txt (llms.go, Strategies/Llms); the files of a git repository (git/processor.go,
--                 git/types.go, Strategies/Git); the crawler (crawler.go,
--                 Strategies/Crawler); and what the callbacks for pages tell the result of a run, which
--                 all but the crawler share (Strategies/Callbacks).
--   Converter     internal/converter: which content is Markdown, text or HTML (content_type.go), and
--                 the converter of reStructuredText (rst.go, Converter/Rst).
--   Utils         internal/utils: ParallelForEach (workerpool.go, Utils/Parallel), and the tests on
--                 URLs with the name of the output directory (url.go, Utils/Url).
--
-- App.Fallback runs a strategy, has Recovery.Validator judge what Domain.Result counted and how
-- Domain.Errors classifies the error, and on a verdict to retry runs the candidates of
-- Recovery.Planner. App.Manifest runs its sources, and four of the strategies their pages, on
-- Utils.Parallel. The crawler asks State which pages changed and tells it which it saw.
-- Llm.Provider asks Llm.Breaker, then runs Llm.Retry round a wait on the bucket and the request.
--
-- A method that holds a lock is one step from a state to a state, and goroutines are the order in
-- which their steps come. What is outside the repository's code is a parameter: the clock, the
-- context, sleeping, the provider, strategies, url.Parse, os.Remove, and what reading and writing
-- a file gave; the texts that fmt.Sprintf gives of a JSON value that is not a string, and the
-- codec of encoding/json and package time that a saved state is written with, for which
-- State/Json says what is relied on. The length of a text is that of its UTF-8 bytes, where no
-- file says that its texts are ASCII. A world W stands for what they share. Times are nanoseconds
-- in natural numbers. Go's int is ℤ where the code tests for a negative one, and a natural number
-- where it is a counter; none is taken to reach 2^63. Floating-point numbers are exact here:
-- tokens are integers in units of a 60·10⁹th of a token, and ratios are compared by
-- cross-multiplication.
--
-- Loops: the retry loop of Llm recurses on the retries left, and the loops over candidates and
-- pages on their lists. A run of Utils.Parallel is the list of the steps that its goroutines
-- made, in any order that the channel and the context allow, and more orders than that: an index
-- may be sent or taken out of turn. RenderType has as its fuel the depth of the JSON value that
-- it is given. The loop of the RST converter has as many turns as the text has lines, since each
-- of them takes a line. The walk of sitemap indexes has fuel for their nesting, and the number of
-- sitemaps under an index is enough. The wait of the token bucket has fuel, and its theorem says
-- that a fuel of three is enough; the loop of Fetcher.Retry, which ends where a third-party
-- backoff says so, has fuel for the retries that the backoff is made for and one call more.
--
-- Not modelled: the strategies for pkg.go.dev, wikis, git repositories but for their files, and,
-- but for how its items are rendered, docs.rs; the text of errors and log lines, HTTP, HTML and
-- Markdown conversion, the git and cache libraries, configuration, and the terminal interface,
-- which are input and output or calls of third-party code.
mod Base
pub mod Domain
pub mod Llm
pub mod State
pub mod Recovery
pub mod App
pub mod Fetcher
pub mod Renderer
pub mod Docsrs
pub mod Utils
pub mod Strategies
pub mod Converter
