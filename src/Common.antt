-- ===== src/Common.antt =====
-- common: the syncer of metagraphs, and of utils.py the helpers that keep state or decide something.
pub mod Metagraph
pub mod LruSet
pub mod Burn
pub mod Retry
pub mod MetagraphSyncer
