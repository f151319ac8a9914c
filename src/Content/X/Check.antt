-- ===== src/Content/X/Check.antt =====
-- scraping/x/utils.py: validate_tweet_content, and the last check of the entity.
pub mod Laws
mod Tests
use custom_scraper.Content.{
  DataEntity, ValidationResult, accepted, are_non_content_fields_equal, data_label,
  max_label_length, obfuscate_datetime_to_minute, refused, rejected, x_source,
}
use custom_scraper.Content.X.{
  Reason, XContent, bytes_too_big, fields_incorrect, good_job, model_config_invalid, normalize_url,
  retweet, undecoded, validate_engagement_metrics, validate_media_content, validate_model_config,
  validate_timestamp, validate_tweet_fields, validate_twitter_url_deadline,
}
use custom_scraper.Prelude.{
  Bool, List, Option, String, [], if◌then◌else◌, inl, inr, length, ltb, none, not, some, ℕ, ◌∷◌,
  ◌⊎◌,
}
use custom_scraper.Prelude.Iff.{first_problem}
use custom_scraper.Ratio.{Ratio}

module _ (lower : String → String) (first : ℕ → String → String) where
  -- The label of a tweet, from its first hashtag: `inl` is the error of a label that is too long.
  unfoldable pub label_of : List String → Unit {0} ⊎ Option String
  label_of [] = inr none
  label_of (h ∷ hs) = elim (data_label lower (first max_label_length (lower h))) [
    | none ↦ inl tt
    | some label ↦ inr (some label)
  ]

  module _ (encode : XContent → List ℕ) where
    -- The entity of a content with such a label.
    unfoldable pub entity_of : XContent → Unit {0} ⊎ Option String → Option DataEntity
    entity_of content (inl _) = none
    entity_of content (inr label) =
        let coded =
          encode (record content { timestamp = obfuscate_datetime_to_minute content.timestamp }) in
        some (record {
          uri = content.url;
          datetime = content.timestamp;
          source = x_source;
          label = label;
          content = coded;
          content_size_bytes = length coded;
        })

    -- `XContent.to_data_entity`; `none` is an error.
    unfoldable pub to_data_entity : XContent → Option DataEntity
    unfolding label_of entity_of
    to_data_entity content = entity_of content (label_of content.tweet_hashtags)

-- The entity with its address in the form for comparison.
unfoldable pub normalized : (String → String) → ℕ → ℕ → DataEntity → DataEntity
unfolding normalize_url
normalized replaced deadline now e = record e { uri = normalize_url replaced deadline now e.uri }

-- `validate_data_entity_fields`, against the entity of the tweet; `none` is the error of its making.
unfoldable pub validate_data_entity_fields :
    (String → String) → ℕ → ℕ → Option DataEntity → DataEntity → Option (ValidationResult Reason)
unfolding normalized
validate_data_entity_fields replaced deadline now none entity = none
validate_data_entity_fields replaced deadline now (some tweet) entity =
    if ltb tweet.content_size_bytes entity.content_size_bytes
    then some (rejected bytes_too_big entity)
    else if not (
        are_non_content_fields_equal (normalized replaced deadline now tweet)
          (normalized replaced deadline now entity))
    then some (rejected fields_incorrect entity)
    else some (accepted good_job entity)

module _ (replaced : String → String) (sort : List String → List String) (log10 : ℕ → Ratio)
    (root : ℕ → ℕ) (deadline now : ℕ) where
  -- The checks of `validate_tweet_content` that compare the two contents, in their order.
  unfoldable pub check_tweet : (submitted actual : XContent) → Option Reason
  unfolding validate_tweet_fields validate_timestamp validate_twitter_url_deadline
      validate_media_content validate_model_config validate_engagement_metrics
  check_tweet submitted actual =
      first_problem (validate_tweet_fields replaced deadline now submitted actual) (
        first_problem (validate_timestamp submitted actual) (
          first_problem (validate_twitter_url_deadline deadline now submitted actual) (
            first_problem (validate_media_content sort submitted.media actual.media) (
              if not (validate_model_config submitted.model_config)
              then some model_config_invalid
              else validate_engagement_metrics log10 root now submitted actual))))

module _ (lower : String → String) (first : ℕ → String → String) (encode : XContent → List ℕ)
    (replaced : String → String) (sort : List String → List String) (log10 : ℕ → Ratio)
    (root : ℕ → ℕ) (deadline now : ℕ) where
  -- `validate_tweet_content`, on the tweet that was decoded.
  unfoldable pub check_decoded :
      (actual : XContent) (is_retweet : Bool)
      → DataEntity
      → Option XContent
      → Option (ValidationResult Reason)
  unfolding check_tweet to_data_entity validate_data_entity_fields
  check_decoded actual is_retweet entity none = some (rejected undecoded entity)
  check_decoded actual is_retweet entity (some submitted) =
      if is_retweet
      then some (rejected retweet entity)
      else refused (check_tweet replaced sort log10 root deadline now submitted actual) entity (
          validate_data_entity_fields replaced deadline now
            (to_data_entity lower first encode actual) entity)

  -- `decode` is `XContent.from_data_entity`; `none` is an error that is raised.
  unfoldable pub validate_tweet_content :
      (decode : DataEntity → Option XContent) (actual : XContent)
      → DataEntity
      → Bool
      → Option (ValidationResult Reason)
  unfolding check_decoded
  validate_tweet_content decode actual entity is_retweet =
      check_decoded actual is_retweet entity (decode entity)
