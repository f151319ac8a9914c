-- ===== src/Reddit.antt =====
-- scraping/reddit: the accounts, proxies, jobs and limits of the Reddit workers.
pub mod ProxyPool
pub mod Account
pub mod AccountPool
pub mod Checkpoints
pub mod Worker
pub mod Orchestrator
pub mod JobQueue
pub mod Planner
pub mod RateLimiter
