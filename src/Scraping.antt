-- ===== src/Scraping.antt =====
-- scraping: when a miner scrapes, and what.
pub mod Coordinator
