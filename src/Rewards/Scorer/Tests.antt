-- ===== src/Rewards/Scorer/Tests.antt =====
-- Three miners that are checked.
-- The identity stands for the powers.
use custom_scraper.Prelude.{
  List, [], arith, false, none, refl, replicate, some, true, update_at, ◌++◌, ◌<◌, ◌∷◌, ◌≡◌,
}
use custom_scraper.Ratio.{Ratio, SameRatio, complement, mul, no_amount, over}
use custom_scraper.Rewards.Jobs.{DataDesirabilityLookup, reddit_source}
use custom_scraper.Rewards.Scorer.{
  MinerScorer, ValidationResult, done, init, load_state, resize, save_state, starting_credibility,
  starting_s3_credibility, total_bytes_validated, update_credibility, valid_bytes,
}
use custom_scraper.Rewards.Scorer.Calls.{run_all, run_all-Succeeds}
use custom_scraper.Rewards.Scorer.Invariant.{IsValid}
use custom_scraper.Rewards.Scorer.Learning.{update_credibility_lem}
use custom_scraper.Rewards.Scorer.Ranges.{run-IsValid}
use custom_scraper.Rewards.Scorer.Restore.{resize-load_state}
use custom_scraper.Rewards.Scorer.Runs.{
  Op, evaluation_call, penalty_call, reset_call, resize_call, run, s3_call,
}
use custom_scraper.Rewards.Scorer.Safety.{Succeeds}
use custom_scraper.Rewards.Value.{ScorableDataEntityBucket}

abbrev same_power : Ratio → Ratio
same_power r = r

abbrev jobs_model : DataDesirabilityLookup
jobs_model = record {
  max_age_in_hours = 720;
  distribution =
      (
        1,
        record {
          weight = 58;
          default_scale_factor = record { negative = false; size = 3 };
          jobs = [];
        },
      )
      ∷ [];
}

abbrev fresh_bucket : ScorableDataEntityBucket
fresh_bucket = record {
  time_bucket_id = 100;
  source = reddit_source;
  label = none;
  scorable_bytes = 10;
}

abbrev passed : ValidationResult
passed = record { is_valid = true; content_size_bytes_validated = 40 }

abbrev failed_check : ValidationResult
failed_check = record { is_valid = false; content_size_bytes_validated = 0 }

abbrev calls : List Op
calls =
    evaluation_call 1 jobs_model 4320 100 (some (fresh_bucket ∷ [])) (passed ∷ [])
    ∷ s3_call 1 (over 80 1) false
    ∷ resize_call 3
    ∷ evaluation_call 2 jobs_model 4320 100 none (failed_check ∷ [])
    ∷ penalty_call 1 (over 1 2)
    ∷ evaluation_call 1 jobs_model 4320 100 (some (fresh_bucket ∷ fresh_bucket ∷ [])) (passed ∷ [])
    ∷ reset_call 0
    ∷ []

run-IsValid_example : IsValid (run same_power same_power calls (init 2))
run-IsValid_example =
    run-IsValid same_power same_power (λ r h. h) 2 calls
      (
        omega arith,
        ((omega arith, omega arith), (tt, (omega arith, (omega arith, (omega arith, (tt, tt)))))),
      )

run_all-Succeeds_example : Succeeds 3 (run_all same_power same_power calls (init 2))
run_all-Succeeds_example = run_all-Succeeds same_power same_power 2 calls (
  (omega arith, omega arith),
  (
    omega arith,
    (omega arith, (omega arith, (omega arith, ((omega arith, omega arith), (omega arith, tt))))),
  ),
)

abbrev two_miners : MinerScorer
two_miners = record {
  scores = no_amount ∷ no_amount ∷ [];
  miner_credibility = over 1 2 ∷ over 0 1 ∷ [];
  scorable_bytes = record { gained = 9; lost = 2; unit = 10 } ∷ no_amount ∷ [];
  s3_boosts = over 0 1 ∷ over 0 1 ∷ [];
  s3_credibility = over 3 8 ∷ over 3 8 ∷ [];
  cred_alpha = over 3 20;
  s3_cred_alpha = over 3 10;
}

update_credibility_lem_example :
    (new : Ratio) × (update_credibility 0 (passed ∷ passed ∷ []) two_miners
      ≡ done
          (record two_miners { miner_credibility = update_at 0 new two_miners.miner_credibility }))
    × (0 < total_bytes_validated (passed ∷ passed ∷ [])
        → valid_bytes (passed ∷ passed ∷ []) ≡ total_bytes_validated (passed ∷ passed ∷ [])
        → SameRatio (complement new) (mul (complement (over 3 20)) (complement (over 1 2))))
    × (valid_bytes (passed ∷ passed ∷ []) ≡ 0
        → SameRatio new (mul (complement (over 3 20)) (over 1 2)))
update_credibility_lem_example =
    update_credibility_lem 0 passed (passed ∷ []) (over 1 2) two_miners refl
      (omega arith, omega arith) (omega arith, omega arith)

resize-load_state_example :
    (t : MinerScorer) × (resize 3 (load_state (save_state two_miners) (init 3)) ≡ done t)
    × (t.scores ≡ two_miners.scores ++ replicate 1 no_amount)
    × (t.miner_credibility ≡ two_miners.miner_credibility ++ replicate 1 starting_credibility)
    × (t.s3_boosts ≡ two_miners.s3_boosts ++ replicate 1 (over 0 1))
    × (t.s3_credibility ≡ two_miners.s3_credibility ++ replicate 1 starting_s3_credibility)
    × (t.scorable_bytes ≡ replicate 3 no_amount ++ replicate 1 no_amount)
resize-load_state_example =
    resize-load_state 3 2 two_miners
      (record {
        of_scores = refl;
        of_credibility = refl;
        of_bytes = refl;
        of_boosts = refl;
        of_s3_credibility = refl;
      })
      (omega arith)
