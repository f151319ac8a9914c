-- ===== src/Desirability.antt =====
-- `calculate_total_weights` of dynamic_desirability/desirability_retrieval.py: the jobs that all validators ask for
-- together. Stakes are numbers in one unit, weights exact fractions of either sign. Of the parameters of a job those of
-- its key are kept. Where JSON may hold null, a key that is not there is `none` and null is `some none`.
pub mod Laws
pub mod Total
mod Tests
use custom_scraper.Prelude.{
  Bool, List, Option, String, [], if◌then◌else◌, length, ltb, none, not, option_key, pair_key, some,
  string_key, sum_by, ℕ, ◌&&◌, ◌*◌, ◌++◌, ◌+◌, ◌==◌, ◌∷◌,
}
use custom_scraper.Prelude.Dict.{Dict, insert, lookup}
use custom_scraper.Ratio.{Amount, Ratio, exceeds, mul, over, scale}
use custom_scraper.Storage.Validator.Read.{label_too_long}
use mathlib.Core.Option

-- keyword, platform, label, start, end
abbrev pub JobKey : Type 0
JobKey = Option String × (String × (Option String × (Option String × Option String)))

-- A job of a file; `params` is none where the parameters are missing or not complete.
pub record SubmittedJob : Type 0 where
  pub id : Option (Option String)
  pub params : Option JobKey
  pub weight : Option Amount

-- The old format is a list of sources with the weights of their labels.
pub data Submission : Type 0 where
  jobs_format : List SubmittedJob → Submission
  label_weights_format : List (String × List (String × Amount)) → Submission

pub record Totals : Type 0 where
  pub aggregated_jobs : Dict JobKey Amount
  pub job_ids : Dict JobKey (Option String)

pub record FinalJob : Type 0 where
  pub final_id : Option String
  pub final_key : JobKey
  pub final_weight : Amount

-- The list that is written, or the KeyError of `job_ids[job_key]`, or the ZeroDivisionError of a stake by the total.
pub data Aggregate : Type 0 where
  aggregate : List FinalJob → Aggregate
  missing_id zero_stake : Aggregate

abbrev pub five : Amount
five = record { gained = 5; lost = 0; unit = 1 }

abbrev pub one : Amount
one = record { gained = 1; lost = 0; unit = 1 }

unfoldable pub plus_amount : Amount → Amount → Amount
plus_amount a b = record {
  gained = a.gained * b.unit + b.gained * a.unit;
  lost = a.lost * b.unit + b.lost * a.unit;
  unit = a.unit * b.unit;
}

-- `if weight > 5.0: weight = 5.0`
unfoldable pub capped : Amount → Amount
unfolding exceeds
capped w = if exceeds w five then five else w

-- `if weight < MINIMUM_DD_SCALE: weight = MINIMUM_DD_SCALE`
unfoldable pub floored : Amount → Amount → Amount
unfolding exceeds
floored minimum w = if exceeds minimum w then minimum else w

-- `label_name` makes the label of a channel, and `numbered` a name with a number behind it.
module _ (channel_label : String → String) (numbered : String → ℕ → String) where
  unfoldable pub labels_of : String → String → ℕ → List (String × Amount) → List SubmittedJob
  labels_of name platform n [] = []
  labels_of name platform n ((label, weight) ∷ rest) =
      record {
        id = some (some (numbered name n));
        params = some (none, (platform, (some label, (none, none))));
        weight = some weight;
      }
      ∷ labels_of name platform (n + 1) rest

  -- The conversion of the old format; `n` counts the jobs made.
  unfoldable pub converted : String → ℕ → List (String × List (String × Amount)) → List SubmittedJob
  unfolding labels_of
  converted name n [] = []
  converted name n ((platform, labels) ∷ sources) =
      labels_of name platform n labels ++ converted name (n + length labels) sources

  unfoldable pub submitted_jobs : String → Submission → List SubmittedJob
  unfolding converted
  submitted_jobs name (jobs_format jobs) = jobs
  submitted_jobs name (label_weights_format sources) = converted name 0 sources

  -- `_apply_channel_label_conversion`
  unfoldable pub apply_channel_label_conversion : JobKey → JobKey
  apply_channel_label_conversion (keyword, (platform, (none, dates))) =
      (keyword, (platform, (none, dates)))
  apply_channel_label_conversion (keyword, (platform, (some label, dates))) =
      if string_key.same platform "youtube" && not (string_key.same label "")
      then (keyword, (platform, (some (channel_label label), dates)))
      else (keyword, (platform, (some label, dates)))

  -- The loop over the default jobs.
  unfoldable pub add_default : SubmittedJob → Totals → Totals
  unfolding apply_channel_label_conversion
  add_default job t = elim job.params [
    | none ↦ t
    | some params ↦
        let key : JobKey = apply_channel_label_conversion params in
        record {
          aggregated_jobs = insert key (Option.get_or job.weight one) t.aggregated_jobs;
          job_ids =
              insert key (Option.get_or job.id (some (numbered "default_" (length t.job_ids))))
                t.job_ids;
        }
  ]

  unfoldable pub add_defaults : List SubmittedJob → Totals → Totals
  unfolding add_default
  add_defaults [] t = t
  add_defaults (job ∷ jobs) t = add_defaults jobs (add_default job t)

  -- `label and len(label) > MAX_LABEL_LENGTH`
  unfoldable pub skipped : JobKey → Bool
  unfolding label_too_long
  skipped (keyword, (platform, (label, dates))) = label_too_long label

  -- The vote for a job of a validator whose factor is `vali_weight / normalizer`.
  unfoldable pub add_vote : Ratio → SubmittedJob → Totals → Totals
  unfolding apply_channel_label_conversion skipped capped plus_amount scale
  add_vote factor job t = elim job.params [
    | none ↦ t
    | some params ↦
        let key : JobKey = apply_channel_label_conversion params in
        let value : Amount = scale (Option.get_or job.weight one) factor in
        if skipped params then t else record {
          aggregated_jobs =
              insert key
                (capped (elim (lookup key t.aggregated_jobs) [
                  | none ↦ value
                  | some w ↦ plus_amount w value
                ]))
                t.aggregated_jobs;
          job_ids = elim (lookup key t.job_ids) [
            | some _ ↦ t.job_ids
            | none ↦
                insert key (Option.get_or job.id (some (numbered "aggregate_" (length t.job_ids))))
                  t.job_ids
          ];
        }
  ]

  unfoldable pub add_votes : Ratio → List SubmittedJob → Totals → Totals
  unfolding add_vote
  add_votes factor [] t = t
  add_votes factor (job ∷ jobs) t = add_votes factor jobs (add_vote factor job t)

  -- The loop over the validators that submitted something, each with its stake; `scale_of` is
  -- `total_vali_weight / normalizer`.
  unfoldable pub add_validators : Ratio → ℕ → List (ℕ × Submission) → Totals → Totals
  unfolding add_votes submitted_jobs mul
  add_validators scale_of total_stake [] t = t
  add_validators scale_of total_stake ((stake, submission) ∷ rest) t =
      add_validators scale_of total_stake rest (
        add_votes (mul scale_of (over stake total_stake)) (submitted_jobs "aggregate_" submission)
          t)

  -- The conversion to the final format; `none` is the KeyError of `job_ids[job_key]`.
  unfoldable pub final_jobs :
      Amount → Dict JobKey (Option String) → Dict JobKey Amount → Option (List FinalJob)
  unfolding floored
  final_jobs minimum ids [] = some []
  final_jobs minimum ids ((key, weight) ∷ rest) = Option.bind (lookup key ids) (λ job_id.
      Option.map
        (λ jobs.
          record { final_id = job_id; final_key = key; final_weight = floored minimum weight }
          ∷ jobs)
        (final_jobs minimum ids rest))

  -- The loop divides by the total stake as soon as one validator has submitted something.
  unfoldable pub calculate_total_weights :
      Ratio → Amount → Submission → List (ℕ × Submission) → Aggregate
  unfolding add_defaults add_validators final_jobs submitted_jobs
  calculate_total_weights scale_of minimum defaults validators =
      let total_stake = sum_by (λ v. v.0) validators in
      let start : Totals = record { aggregated_jobs = []; job_ids = [] } in
      let t =
        add_validators scale_of total_stake validators
          (add_defaults (submitted_jobs "default_" defaults) start) in
      if ltb 0 (length validators) && total_stake == 0
      then zero_stake
      else elim (final_jobs minimum t.job_ids t.aggregated_jobs) [
        | none ↦ missing_id
        | some jobs ↦ aggregate jobs
      ]
