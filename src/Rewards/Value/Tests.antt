-- ===== src/Rewards/Value/Tests.antt =====
-- Runs of the calculator.
use custom_scraper.Prelude.{[], false, none, refl, string_key, ◌*◌, ◌∷◌, ◌≡◌}
use custom_scraper.Prelude.Dict.{lookup}
use custom_scraper.Rewards.Jobs.{
  DataDesirabilityLookup, find_for_source, get_data_source_weight, get_default_scale_factor,
  reddit_source,
}
use custom_scraper.Rewards.Value.{ScorableDataEntityBucket, get_score_for_data_entity_bucket}

abbrev model : DataDesirabilityLookup
model = record {
  max_age_in_hours = 720;
  distribution =
      (
        1,
        record {
          weight = 58;
          default_scale_factor = record { negative = false; size = 3 };
          jobs = [];
        },
      )
      ∷ [];
}

abbrev bucket : ScorableDataEntityBucket
bucket = record { time_bucket_id = 100; source = reddit_source; label = none; scorable_bytes = 10 }

half_value :
    get_score_for_data_entity_bucket model bucket 820
    ≡ record { gains = 3 * (58 * (720 * 30)); losses = 0 }
unfolding get_score_for_data_entity_bucket get_data_source_weight get_default_scale_factor lookup
    find_for_source
half_value = refl
