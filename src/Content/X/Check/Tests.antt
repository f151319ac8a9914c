-- ===== src/Content/X/Check/Tests.antt =====
-- Runs of the checks of tweets.
use custom_scraper.Content.{
  DataEntity, ValidationResult, accepted, are_non_content_fields_equal, data_label, has_media,
  obfuscate_datetime_to_minute, passes, rejected,
}
use custom_scraper.Content.Counts.{
  check_increasing, check_percentage, decreased, engagement_tolerance,
}
use custom_scraper.Content.X.{Reason, XContent, contains, count_invalid, good_job, like_count}
use custom_scraper.Content.X.Check.{to_data_entity, validate_tweet_content}
use custom_scraper.Content.X.Check.Laws.{EntityFits, TweetFits, validate_tweet_content_lem}
use custom_scraper.Prelude.{Option, [], false, member, none, refl, some, true, ℕ, ◌↔◌, ◌∷◌, ◌≡◌}
use custom_scraper.Prelude.Int.{pos, ◌+ℤ◌}
use custom_scraper.Ratio.{over}

abbrev tweet : ℕ → XContent
tweet views = record {
  model_config = none;
  username = "@u";
  text = "#a b";
  url = "https://x.com/u/status/1";
  timestamp = 120000000;
  tweet_hashtags = "#a" ∷ [];
  media = none;
  optional = λ f. none;
  counts = λ f. some (pos views);
}

-- The tweet that was found, with its instant to the second, and its user without the sign.
abbrev found : XContent
found = record (tweet 100) { timestamp = 125000000; username = "u" }

abbrev entity : ℕ → DataEntity
entity size = record {
  uri = "https://x.com/u/status/1";
  datetime = 125000000;
  source = 2;
  label = some "#a";
  content = 1 ∷ [];
  content_size_bytes = size;
}

abbrev validated : ℕ → ℕ → Option (ValidationResult Reason)
validated views size =
    validate_tweet_content (λ s. s) (λ n s. s) (λ c. 1 ∷ 2 ∷ []) (λ s. s) (λ urls. urls)
      (λ n. over 2 1) (λ n. n) 0 3720000000 (λ e. some (tweet views)) found (entity size) false

honest : validated 90 2 ≡ some (accepted good_job (entity 2))
unfolding validate_tweet_content member contains obfuscate_datetime_to_minute has_media
    check_increasing ◌+ℤ◌ engagement_tolerance check_percentage data_label
    are_non_content_fields_equal
honest = refl

too_many : validated 121 2 ≡ some (rejected (count_invalid like_count decreased) (entity 2))
unfolding validate_tweet_content member contains obfuscate_datetime_to_minute has_media
    check_increasing ◌+ℤ◌
too_many = refl

validate_tweet_content_lem_example : (passes (validated 90 2) ≡ true) ↔ (
    (s : XContent) × ((some (tweet 90) ≡ some s)
      × ((false ≡ false)
          × (TweetFits (λ s. s) (λ urls. urls) (λ n. over 2 1) (λ n. n) 0 3720000000 s found
              × EntityFits
                  (λ s. s)
                  (λ urls. urls)
                  (λ n. over 2 1)
                  (λ n. n)
                  0
                  3720000000
                  (to_data_entity (λ s. s) (λ n s. s) (λ c. 1 ∷ 2 ∷ []) found)
                  (entity 2)))))
validate_tweet_content_lem_example =
    validate_tweet_content_lem (λ s. s) (λ urls. urls) (λ n. over 2 1) (λ n. n) 0 3720000000
      (λ s. s) (λ n s. s) (λ c. 1 ∷ 2 ∷ []) (λ e. some (tweet 90)) found (entity 2) false
