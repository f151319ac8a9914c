-- ===== src/Vali.antt =====
-- vali_utils: what the validator uses to go through the miners and to send requests on.
pub mod MinerIterator
pub mod ValidatorRegistry
pub mod Samples
pub mod Evaluator
