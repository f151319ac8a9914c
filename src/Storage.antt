-- ===== src/Storage.antt =====
-- storage: what miners hold.
pub mod Miner
pub mod Labels
pub mod Validator
