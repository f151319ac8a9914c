-- ===== src/Rewards/Scorer/Runs.antt =====
-- The calls that change a scorer, and sequences of them.
use custom_scraper.Prelude.{Bool, List, Option, [], ℕ, ◌∷◌}
use custom_scraper.Ratio.{Ratio}
use custom_scraper.Rewards.Jobs.{DataDesirabilityLookup}
use custom_scraper.Rewards.Scorer.{
  MinerScorer, Outcome, ValidationResult, after, apply_ondemand_penalty, on_miner_evaluated, reset,
  resize, update_s3_boost_and_cred,
}
use custom_scraper.Rewards.Value.{ScorableDataEntityBucket}

pub data Op : Type 0 where
  reset_call : ℕ → Op
  resize_call : ℕ → Op
  s3_call : ℕ → Ratio → Bool → Op
  penalty_call : ℕ → Ratio → Op
  evaluation_call :
      ℕ
      → DataDesirabilityLookup
      → ℕ
      → ℕ
      → Option (List ScorableDataEntityBucket)
      → List ValidationResult
      → Op

module _ (power root : Ratio → Ratio) where
  unfoldable pub step : Op → MinerScorer → Outcome
  step (reset_call uid) s = reset uid s
  step (resize_call n) s = resize n s
  step (s3_call uid percentage failure) s = update_s3_boost_and_cred uid percentage failure s
  step (penalty_call uid mult_factor) s = apply_ondemand_penalty power root uid mult_factor s
  step (evaluation_call uid model unit current buckets results) s =
      on_miner_evaluated power root uid model unit current buckets results s

  -- A caller catches what a call raises, and goes on.
  unfoldable pub run : List Op → MinerScorer → MinerScorer
  run [] s = s
  run (op ∷ ops) s = run ops (after (step op s))
