-- ===== src/Content/Youtube/Check.antt =====
-- scraping/youtube/utils.py: validate_youtube_data_entities and the check of the description. Every error is caught, and
-- gives a refusal. `words` is `text.lower().split()`, `is_blank` tells a text of which `strip` leaves nothing.
pub mod Laws
mod Tests
use Prim.Native.String.{count}
use custom_scraper.Content.{
  DataEntity, ValidationResult, accepted, are_non_content_fields_equal,
  obfuscate_datetime_to_minute, rejected,
}
use custom_scraper.Content.Youtube.{
  Reason, YouTubeContent, check_counts, description_differs, description_fake, description_missing,
  description_too_long, dynamic_fields, entity_differs, failed, low_engagement, passed,
  title_differs, too_many_bytes, transcript_differs, validate_youtube_thumbnails,
  validate_youtube_timestamp, video_id_differs, view_count,
}
use custom_scraper.Content.Youtube.Similarity.{texts_are_similar, transcripts_are_similar}
use custom_scraper.Content.Youtube.Timing.{validate_transcript_timing}
use custom_scraper.Prelude.{
  Bool, List, Option, String, false, if◌then◌else◌, ltb, none, not, some, string_key, true, ℕ, ◌&&◌,
  ◌+◌, ◌-◌,
}
use custom_scraper.Prelude.Iff.{first_problem}
use custom_scraper.Prelude.Int.{ltb_ℤ, pos, ℤ}
use custom_scraper.Ratio.{Ratio}

-- `int(actual_content.view_count or 0) < 100`
unfoldable pub has_low_engagement : Option ℤ → Bool
has_low_engagement none = true
has_low_engagement (some n) = ltb_ℤ n (pos 100)

-- A comparison of texts that has to succeed; its error is caught.
unfoldable pub unless_similar : Option Bool → Reason → Option Reason
unless_similar none reason = some failed
unless_similar (some false) reason = some reason
unless_similar (some true) reason = none

-- An entity whose instant is cut to the minute.
unfoldable pub cut_to_minute : DataEntity → DataEntity
cut_to_minute e = record e { datetime = obfuscate_datetime_to_minute e.datetime }

abbrev pub byte_difference_allowed : ℕ
byte_difference_allowed = 20

abbrev pub max_description : ℕ
max_description = 5000

module _ (words : String → List String) (is_blank : String → Bool) where
  -- The check of a description that was submitted.
  unfoldable pub check_description : String → Option String → Option Reason
  unfolding unless_similar
  check_description description none =
      if string_key.same description ""
      then none
      else if ltb max_description (count description)
      then some description_too_long
      else some description_fake
  check_description description (some actual) =
      if string_key.same description ""
      then none
      else if ltb max_description (count description)
      then some description_too_long
      else if string_key.same actual ""
      then some description_fake
      else unless_similar (texts_are_similar words 95 description actual) description_differs

  unfoldable pub validate_youtube_description : (submitted actual : Option String) → Option Reason
  unfolding check_description
  validate_youtube_description none none = none
  validate_youtube_description none (some actual) =
      if not (string_key.same actual "") && not (is_blank actual)
      then some description_missing
      else none
  validate_youtube_description (some description) actual = check_description description actual

-- The result of the checks.
unfoldable pub concluded : DataEntity → Option Reason → ValidationResult Reason
concluded entity (some reason) = rejected reason entity
concluded entity none = accepted passed entity

-- The checks up to the timing of the transcript, in their order; `second` is the unit of its times.
unfoldable pub check_video :
    (String → List String)
    → (second required now : ℕ) (submitted actual : YouTubeContent) → Option Reason
unfolding has_low_engagement unless_similar
check_video words second required now submitted actual =
    if has_low_engagement (actual.counts view_count)
    then some low_engagement
    else first_problem
        (validate_youtube_timestamp required now submitted.upload_date actual.upload_date)
        (if not (string_key.same actual.video_id submitted.video_id)
          then some video_id_differs
          else first_problem
              (unless_similar (texts_are_similar words 80 actual.title submitted.title)
                title_differs)
              (first_problem
                (unless_similar
                  (transcripts_are_similar words 70 actual.transcript submitted.transcript)
                  transcript_differs)
                (validate_transcript_timing second submitted.transcript
                  submitted.duration_seconds)))

-- The comparison of the two entities.
unfoldable pub check_entities : (entity actual : DataEntity) → Option Reason
unfolding cut_to_minute
check_entities entity actual =
    if not (are_non_content_fields_equal (cut_to_minute actual) (cut_to_minute entity))
    then some entity_differs
    else if ltb (actual.content_size_bytes + byte_difference_allowed) entity.content_size_bytes
    then some too_many_bytes
    else none

module _ (words : String → List String) (is_blank : String → Bool) (log10 : ℕ → Ratio)
    (root : ℕ → ℕ) (second required now : ℕ) where
  unfoldable pub check_contents :
      (entity actual_entity : DataEntity) (submitted actual : YouTubeContent) → Option Reason
  unfolding check_video check_entities validate_youtube_description
  check_contents entity actual_entity submitted actual =
      first_problem (check_video words second required now submitted actual) (
        first_problem (check_entities entity actual_entity) (
          first_problem
            (validate_youtube_description words is_blank submitted.description actual.description)
            (first_problem (validate_youtube_thumbnails submitted.thumbnails actual.thumbnails) (
              check_counts log10 root dynamic_fields (now - submitted.upload_date) submitted
                actual))))

  -- The result for what was decoded of the two entities.
  unfoldable pub judge :
      (entity actual_entity : DataEntity)
      → Option YouTubeContent
      → Option YouTubeContent
      → ValidationResult Reason
  unfolding check_contents concluded
  judge entity actual_entity none actual = rejected failed entity
  judge entity actual_entity (some submitted) none = rejected failed entity
  judge entity actual_entity (some submitted) (some actual) =
      concluded entity (check_contents entity actual_entity submitted actual)

  unfoldable pub validate_youtube_data_entities :
      (decode : List ℕ → Option YouTubeContent) (entity actual_entity : DataEntity)
      → ValidationResult Reason
  unfolding judge
  validate_youtube_data_entities decode entity actual_entity =
      judge entity actual_entity (decode entity.content) (decode actual_entity.content)
