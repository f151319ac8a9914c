-- ===== src/Vali/Evaluator/Eval/Tests.antt =====
-- A miner that has an index, and answers or not.
use custom_scraper.Prelude.{
  List, String, [], false, ltb, none, refl, some, string_key, true, ℕ, ◌-◌, ◌∷◌, ◌≡◌,
}
use custom_scraper.Prelude.Dict.{insert, lookup}
use custom_scraper.Ratio.{Ratio, over}
use custom_scraper.Rewards.Jobs.{DataDesirabilityLookup}
use custom_scraper.Rewards.Scorer.{init}
use custom_scraper.Storage.Labels.{AutoIncrementDict, empty, get_by_id, get_or_insert}
use custom_scraper.Storage.Validator.{
  CompressedMinerIndex, init as no_indexes, upsert_compressed_miner_index,
}
use custom_scraper.Storage.Validator.Read.{
  ScorableDataEntityBucket as StoredBucket, read_miner_index,
}
use custom_scraper.Vali.Evaluator.Eval.{
  Answers, World, choose_bucket, eval_miner, is_askable, new_index, passes, s3_due,
  update_and_get_miner_index,
}
use custom_scraper.Vali.Evaluator.Eval.Kept.{KeepsS3}
use custom_scraper.Vali.Evaluator.Eval.Laws.{after_run, found_index}
use custom_scraper.Vali.Evaluator.Eval.Lost.{eval_miner-perform_s3_validation}
use custom_scraper.Vali.Samples.{choose_data_entity_bucket_to_query}
use mathlib.Core.Option

abbrev fold : String → String
fold label = label

abbrev first_id : AutoIncrementDict → ℕ
first_id d = 0

abbrev same_power : Ratio → Ratio
same_power r = r

abbrev no_hash : List ℕ → String
no_hash content = ""

abbrev jobs_model : DataDesirabilityLookup
jobs_model = record { max_age_in_hours = 720; distribution = [] }

abbrev indexed : CompressedMinerIndex
indexed = (1, record { label = some "r/bittensor"; sizes = (500, 10) ∷ [] } ∷ []) ∷ []

abbrev answers : Answers
answers = record {
  index_answer = new_index indexed;
  s3_answer = record {
    s3_is_valid = true;
    validation_percentage = over 80 1;
    found_jobs = 3;
    job_match_rate = some (over 100 1);
  };
  chosen_byte = 4;
  bucket_answer = none;
  verified = record { is_valid = true; content_size_bytes_validated = 5 } ∷ [];
}

abbrev world : World
world = record { scorer = init 2; storage = no_indexes; s3_storage = [] }

abbrev stored_bucket : StoredBucket
stored_bucket = record {
  time_bucket_id = 500;
  source = 1;
  label = some "r/bittensor";
  size_bytes = 10;
  scorable_bytes = 10;
}

stored_index :
    found_index fold first_id same_power same_power no_hash fold jobs_model 4320 "a" 1 answers world
    ≡ some (stored_bucket ∷ [])
unfolding update_and_get_miner_index upsert_compressed_miner_index read_miner_index Option.bind
    empty no_indexes lookup get_or_insert get_by_id insert
stored_index = refl

chosen_bucket : choose_bucket 4 (stored_bucket ∷ []) ≡ some stored_bucket
unfolding choose_bucket choose_data_entity_bucket_to_query Option.bind
chosen_bucket = refl

-- A bucket of the time bucket 0 cannot be asked for.
time_zero : is_askable (record stored_bucket { time_bucket_id = 0 }) ≡ false
unfolding is_askable
time_zero = refl

eval_miner-perform_s3_validation_example :
    (w' : World) × (after_run (
        eval_miner fold first_id same_power same_power no_hash fold jobs_model 4320 1 "a" 9000 1 600
          answers world)
      ≡ w')
    × ((later : ℕ) → s3_due "a" later w'.s3_storage ≡ ltb 1800 (later - 9000))
    × KeepsS3 world.scorer.s3_boosts world.scorer.s3_credibility w'.scorer
unfolding s3_due lookup passes
eval_miner-perform_s3_validation_example =
    eval_miner-perform_s3_validation fold first_id same_power same_power no_hash fold jobs_model
      4320 1 "a" 9000 1 600 answers world (stored_bucket ∷ []) stored_bucket stored_index refl
      chosen_bucket refl
