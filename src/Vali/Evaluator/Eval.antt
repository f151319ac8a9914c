-- ===== src/Vali/Evaluator/Eval.antt =====
-- `eval_miner` of vali_utils/miner_evaluator.py, over what the miner, the S3 checks and the scraper answer, with
-- storage/validator/s3_validator_storage.py.
pub mod Kept
pub mod Laws
pub mod Lost
mod Tests
use custom_scraper.Prelude.{
  Bool, List, Option, String, [], false, get_elem?, if◌then◌else◌, ltb, map, none, not, some,
  string_key, true, ℕ, ◌&&◌, ◌*◌, ◌++◌, ◌-◌, ◌==◌, ◌||◌, ◌∷◌,
}
use custom_scraper.Prelude.Dict.{Dict, lookup, remove}
use custom_scraper.Ratio.{Ratio, over}
use custom_scraper.Rewards.Jobs.{
  DataDesirabilityLookup, DataSource, reddit_source, unknown_4, unknown_5, unknown_6, unknown_7,
  x_source, youtube_source,
}
use custom_scraper.Rewards.Scorer.{
  MinerScorer, Outcome, ValidationResult, done, on_miner_evaluated, raised,
  update_s3_boost_and_cred,
}
use custom_scraper.Rewards.Value.{ScorableDataEntityBucket}
use custom_scraper.Storage.Labels.{AutoIncrementDict}
use custom_scraper.Storage.Miner.{DataEntity}
use custom_scraper.Storage.Validator.{
  CompressedMinerIndex, ValidatorStorage, upsert_compressed_miner_index,
}
use custom_scraper.Storage.Validator.Read.{
  ScorableDataEntityBucket as StoredBucket, failed, index, label_too_long, missing,
  read_miner_index,
}
use custom_scraper.Vali.Samples.{
  DataEntityBucket, are_entities_unique, are_entities_valid, choose_data_entity_bucket_to_query,
}
use mathlib.Core.Option

-- A row of the S3 results, behind its hotkey.
pub record S3Info : Type 0 where
  pub job_count : ℕ
  pub block : ℕ

unfoldable pub update_validation_info : String → ℕ → ℕ → Dict String S3Info → Dict String S3Info
update_validation_info hotkey job_count block d =
    remove hotkey d ++ (hotkey, record { job_count = job_count; block = block }) ∷ []

pub record S3ValidationResult : Type 0 where
  pub s3_is_valid : Bool
  pub validation_percentage : Ratio
  pub found_jobs : ℕ
  pub job_match_rate : Option Ratio

-- A failed or an invalid answer leaves the last known index.
pub data IndexAnswer : Type 0 where
  no_index : IndexAnswer
  new_index : CompressedMinerIndex → IndexAnswer

-- What comes from outside: `chosen_byte` is the draw of the bucket, and `verified` what the scraper answers.
pub record Answers : Type 0 where
  pub index_answer : IndexAnswer
  pub s3_answer : S3ValidationResult
  pub chosen_byte : ℕ
  pub bucket_answer : Option (List DataEntity)
  pub verified : List ValidationResult

pub record World : Type 0 where
  pub scorer : MinerScorer
  pub storage : ValidatorStorage
  pub s3_storage : Dict String S3Info

pub data Ran : Type 0 where
  ended broke : World → Ran

-- A call of the scorer, and what follows it.
unfoldable pub then_run : World → Outcome → (World → Ran) → Ran
then_run w (done s) next = next (record w { scorer = s })
then_run w (raised s) next = broke (record w { scorer = s })

abbrev pub failed_validation : List ValidationResult
failed_validation = record { is_valid = false; content_size_bytes_validated = 0 } ∷ []

-- `current_block - block > 1800`, or no row.
unfoldable pub s3_due : String → ℕ → Dict String S3Info → Bool
s3_due hotkey current_block d = elim (lookup hotkey d) [
  | none ↦ true
  | some info ↦ ltb 1800 (current_block - info.block)
]

-- `_perform_s3_validation`, of which the storage keeps a row.
unfoldable pub perform_s3_validation : String → ℕ → S3ValidationResult → World → World
unfolding update_validation_info
perform_s3_validation hotkey current_block result w = record w {
  s3_storage = update_validation_info hotkey result.found_jobs current_block w.s3_storage;
}

-- `quality_metrics.get('job_match_rate', 0) < 100`
unfoldable pub job_match_failure : S3ValidationResult → Bool
job_match_failure result = elim result.job_match_rate [
  | none ↦ true
  | some rate ↦ ltb rate.num (100 * rate.den)
]

-- The last step: the boost of the miner, where an S3 validation was made.
unfoldable pub apply_s3 : ℕ → Option S3ValidationResult → World → Ran
unfolding then_run job_match_failure
apply_s3 uid none w = ended w
apply_s3 uid (some result) w =
    let percentage = if result.s3_is_valid then result.validation_percentage else over 0 1 in
    then_run w (update_s3_boost_and_cred uid percentage (job_match_failure result) w.scorer) ended

unfoldable pub source_of : ℕ → DataSource
source_of n =
    if n == 1
    then reddit_source
    else if n == 2
    then x_source
    else if n == 3
    then youtube_source
    else if n == 4
    then unknown_4
    else if n == 5
    then unknown_5
    else if n == 6
    then unknown_6
    else unknown_7

-- The bucket as the calculator of values reads it.
unfoldable pub valued : StoredBucket → ScorableDataEntityBucket
valued b = record {
  time_bucket_id = b.time_bucket_id;
  source = source_of b.source;
  label = b.label;
  scorable_bytes = b.scorable_bytes;
}

-- `to_data_entity_bucket`, for a bucket that can be asked for.
unfoldable pub asked : StoredBucket → DataEntityBucket
asked b = record {
  time_bucket_id = b.time_bucket_id;
  source = b.source;
  label = elim b.label [
    | none ↦ none
    | some label ↦ if string_key.same label "" then none else some label
  ];
  size_bytes = b.size_bytes;
}

-- Whether `to_data_entity_bucket` ends without a ValidationError: the id of the time bucket is positive, the source is one of
-- `DataSource`, and the label is not too long.
unfoldable pub is_askable : StoredBucket → Bool
unfolding label_too_long
is_askable b =
    ltb 0 b.time_bucket_id && (ltb 0 b.source && ltb b.source 8) && not (label_too_long b.label)

-- `source in PREFERRED_SCRAPERS`
unfoldable pub has_scraper : ℕ → Bool
has_scraper source = source == 1 || source == 2 || source == 3

unfoldable pub choose_bucket : ℕ → List StoredBucket → Option StoredBucket
choose_bucket chosen_byte buckets =
    Option.bind
      (choose_data_entity_bucket_to_query chosen_byte (map (λ b. b.scorable_bytes) buckets))
      (λ i. get_elem? buckets i)

-- The parameters of the parts, the powers, and the hash and the normal form of an address.
module _ (casefold : String → String) (draw : AutoIncrementDict → ℕ) (power root : Ratio → Ratio)
    (hash : List ℕ → String) (normalize : String → String) (model : DataDesirabilityLookup)
    (unit : ℕ) where
  -- `_update_and_get_miner_index`; an error that is raised in it gives no index.
  unfoldable pub update_and_get_miner_index :
      String → ℕ → IndexAnswer → World → Option (List StoredBucket) × World
  update_and_get_miner_index hotkey now answer w =
      let storage : ValidatorStorage = elim answer [
        | no_index ↦ w.storage
        | new_index i ↦ upsert_compressed_miner_index casefold draw now i hotkey w.storage
      ] in
      (
        elim (read_miner_index casefold hotkey storage) [
          | missing ↦ none
          | failed ↦ none
          | index buckets ↦ some buckets
        ],
        record w { storage = storage },
      )

  unfoldable pub evaluated :
      ℕ → ℕ → Option (List StoredBucket) → List ValidationResult → World → (World → Ran) → Ran
  unfolding then_run
  evaluated uid current buckets results w next =
      then_run w
        (on_miner_evaluated power root uid model unit current
          (Option.map (λ bs. map valued bs) buckets) results w.scorer)
        next

  -- The miner answered, and its entities pass the checks of the bucket and of uniqueness. The three early returns
  -- differ in the reason that they log.
  unfoldable pub passes : Option (List DataEntity) → StoredBucket → Bool
  passes none b = false
  passes (some entities) b = elim (are_entities_valid entities (asked b)) [
    | some problem ↦ false
    | none ↦ are_entities_unique hash normalize entities
  ]

  -- From the choice of a bucket on. A bucket that cannot be asked for, and one whose source has no scraper, raise.
  unfoldable pub check_bucket :
      ℕ → ℕ → Answers → Option S3ValidationResult → List StoredBucket → World → Ran
  unfolding evaluated apply_s3 choose_bucket passes is_askable has_scraper
  check_bucket uid current a s3_result buckets w = elim (choose_bucket a.chosen_byte buckets) [
    | none ↦ broke w
    | some b ↦
        if not (is_askable b)
        then broke w
        else if not (passes a.bucket_answer b)
        then evaluated uid current (some buckets) failed_validation w ended
        else if not (has_scraper b.source)
        then broke w
        else evaluated uid current (some buckets) a.verified w (λ w. apply_s3 uid s3_result w)
  ]

  -- `eval_miner`; `current` is the time bucket of the moment.
  unfoldable pub eval_miner : ℕ → String → ℕ → ℕ → ℕ → Answers → World → Ran
  unfolding update_and_get_miner_index check_bucket perform_s3_validation
  eval_miner uid hotkey current_block now current a w =
      let (found, w') = update_and_get_miner_index hotkey now a.index_answer w in
      elim found [
        | none ↦ evaluated uid current none failed_validation w' ended
        | some buckets ↦
            if s3_due hotkey current_block w'.s3_storage
            then check_bucket uid current a (some a.s3_answer) buckets
                (perform_s3_validation hotkey current_block a.s3_answer w')
            else check_bucket uid current a none buckets w'
      ]
