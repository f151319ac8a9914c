-- ===== src/Rewards/Value.antt =====
-- rewards/data_value_calculator.py: what a bucket of data is worth. A score is counted in a unit that makes it
-- whole: 1 / (6 * max_age_in_hours) of the unit of a source weight times the unit of a job weight times a byte.
-- Job weights may be negative, and a score is what is gained and what is lost.
pub mod Laws
mod Tests
use custom_scraper.Prelude.{
  Bool, List, Option, String, [], if◌then◌else◌, ltb, none, not, ℕ, ◌*◌, ◌+◌, ◌-◌, ◌==◌, ◌||◌, ◌∷◌,
}
use custom_scraper.Rewards.Jobs.{
  DataDesirabilityLookup, DataSource, Job, Weight, find_for_source, get_data_source_weight,
  get_default_scale_factor, source_id, youtube_source,
}
use mathlib.Core.Option

pub record ScorableDataEntityBucket : Type 0 where
  pub time_bucket_id : ℕ
  pub source : DataSource
  pub label : Option String
  pub scorable_bytes : ℕ

pub record Score : Type 0 where
  pub gains : ℕ
  pub losses : ℕ

abbrev pub no_score : Score
no_score = record { gains = 0; losses = 0 }

unfoldable pub plus : Score → Score → Score
plus a b = record { gains = a.gains + b.gains; losses = a.losses + b.losses }

-- A weight of either sign, times a size.
unfoldable pub times : Weight → ℕ → Score
times w n =
    if w.negative
    then record { gains = 0; losses = w.size * n }
    else record { gains = w.size * n; losses = 0 }

-- `_scale_factor_for_age`, times `2 * max_age_in_hours`; `max(0, …)` is the subtraction on ℕ.
unfoldable pub scale_factor_for_age : ℕ → ℕ → ℕ → ℕ
scale_factor_for_age max_age time_bucket_id current =
    if ltb max_age (current - time_bucket_id) then 0 else 2 * max_age - (current - time_bucket_id)

-- `effective_scorable_bytes`, times 3.
unfoldable pub effective_bytes : ScorableDataEntityBucket → ℕ
unfolding source_id
effective_bytes b =
    if source_id b.source == source_id youtube_source
    then b.scorable_bytes
    else 3 * b.scorable_bytes

-- `job["start_timebucket"] or job["end_timebucket"]`
unfoldable pub is_bounded : Job → Bool
is_bounded j =
    not (Option.get_or j.start_timebucket 0 == 0) || not (Option.get_or j.end_timebucket 0 == 0)

-- `contribution`
unfoldable pub contribution : DataDesirabilityLookup → ScorableDataEntityBucket → ℕ → Job → Score
unfolding is_bounded scale_factor_for_age effective_bytes times
contribution model b current j = times j.job_weight (
    get_data_source_weight model b.source
    * ((if is_bounded j
          then 2 * model.max_age_in_hours
          else scale_factor_for_age model.max_age_in_hours b.time_bucket_id current)
        * effective_bytes b))

-- The loop over the matching jobs.
unfoldable pub total_score :
    DataDesirabilityLookup → ScorableDataEntityBucket → ℕ → List Job → Score
unfolding contribution plus
total_score model b current [] = no_score
total_score model b current (j ∷ js) =
    plus (contribution model b current j) (total_score model b current js)

-- The branch for data that no job asks for.
unfoldable pub default_score : DataDesirabilityLookup → ScorableDataEntityBucket → ℕ → Score
unfolding times scale_factor_for_age effective_bytes
default_score model b current = times (get_default_scale_factor model b.source) (
    get_data_source_weight model b.source
    * (scale_factor_for_age model.max_age_in_hours b.time_bucket_id current * effective_bytes b))

-- `get_score_for_data_entity_bucket`; the keyword is always `None`.
unfoldable pub get_score_for_data_entity_bucket :
    DataDesirabilityLookup → ScorableDataEntityBucket → ℕ → Score
unfolding total_score default_score
get_score_for_data_entity_bucket model b current =
    elim (find_for_source model b.source none b.label b.time_bucket_id) [
      | [] ↦ default_score model b current
      | j ∷ js ↦ total_score model b current (j ∷ js)
    ]
