-- ===== src/Rewards.antt =====
-- rewards: which data is wanted, and what it is worth.
pub mod Jobs
pub mod Value
pub mod Scorer
