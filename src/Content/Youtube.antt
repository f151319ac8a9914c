-- ===== src/Content/Youtube.antt =====
-- scraping/youtube/model.py and scraping/youtube/utils.py: the content of a video, and the checks of its optional fields and
-- of its counts.
pub mod Similarity
pub mod Timing
pub mod Check
pub mod Laws
use custom_scraper.Content.{obfuscate_datetime_to_minute}
use custom_scraper.Content.Counts.{
  Problem, check_increasing, check_percentage, engagement_tolerance, negative,
}
use custom_scraper.Prelude.{
  Bool, List, Option, String, [], false, if◌then◌else◌, is_some, ltb, max, none, not, option_key,
  option_same, some, string_key, true, ℕ, ◌*◌, ◌/◌, ◌==◌, ◌||◌, ◌∷◌,
}
use custom_scraper.Prelude.Float.{Float}
use custom_scraper.Prelude.Iff.{first_problem}
use custom_scraper.Prelude.Int.{negsuc, pos, ℤ}
use custom_scraper.Ratio.{Ratio}

pub data CountField : Type 0 where
  view_count like_count subscriber_count : CountField

-- A time of a segment, as `float` reads it: it is missing, or cannot be read, or it is a float.
pub data Time : Type 0 where
  missing unreadable : Time
  at : Float → Time

-- An item of a transcript; a missing text is the empty one.
pub record Segment : Type 0 where
  pub text : String
  pub start : Time
  pub end : Time

-- `YouTubeContent`, with its counts by their names. A duration below zero counts as zero.
pub record YouTubeContent : Type 0 where
  pub video_id : String
  pub title : String
  pub channel_name : String
  pub upload_date : ℕ
  pub transcript : List Segment
  pub url : String
  pub duration_seconds : ℕ
  pub language : String
  pub thumbnails : Option String
  pub description : Option String
  pub counts : CountField → Option ℤ

pub data Reason : Type 0 where
  failed low_engagement : Reason
  timestamps_differ timestamp_not_obfuscated : Reason
  video_id_differs title_differs transcript_differs : Reason
  no_start no_end start_negative timing_invalid : Reason
  backwards duration_differs : Reason
  entity_differs too_many_bytes : Reason
  description_missing description_too_long description_fake : Reason
  description_differs : Reason
  thumbnails_not_generated thumbnails_differ : Reason
  count_refused : CountField → Problem → Reason
  passed : Reason

-- `if text`
unfoldable pub is_given : Option String → Bool
is_given none = false
is_given (some s) = not (string_key.same s "")

-- `validate_youtube_timestamp`; `required` is the date from which on the instant has to be cut to the minute.
unfoldable pub validate_youtube_timestamp : (required now stored actual : ℕ) → Option Reason
validate_youtube_timestamp required now stored actual =
    if ltb now required
    then (if stored == actual || stored == obfuscate_datetime_to_minute actual
        then none
        else some timestamps_differ)
    else if not (stored == obfuscate_datetime_to_minute actual)
    then (if stored == actual then some timestamp_not_obfuscated else some timestamps_differ)
    else none

-- `validate_youtube_thumbnails`
unfoldable pub validate_youtube_thumbnails : (submitted actual : Option String) → Option Reason
unfolding is_given
validate_youtube_thumbnails submitted actual =
    if not (is_given submitted)
    then none
    else if not (is_some actual)
    then some thumbnails_not_generated
    else if not (option_same submitted actual)
    then some thumbnails_differ
    else none

-- The multiplier of a field, in tenths.
unfoldable pub field_multiplier : CountField → ℕ
field_multiplier view_count = 30
field_multiplier like_count = 10
field_multiplier subscriber_count = 10

-- The tolerance for decreases: half a percent, and a least number.
unfoldable pub small_tolerance : CountField → ℕ → ℕ
small_tolerance view_count submitted = max (submitted * 5 / 1000) 10
small_tolerance like_count submitted = max (submitted * 5 / 1000) 3
small_tolerance subscriber_count submitted = max (submitted * 5 / 1000) 3

-- `field_name in BI_DIRECTIONAL_FIELDS`
unfoldable pub is_bidirectional : CountField → Bool
is_bidirectional view_count = false
is_bidirectional like_count = false
is_bidirectional subscriber_count = true

abbrev pub dynamic_fields : List CountField
dynamic_fields = view_count ∷ like_count ∷ subscriber_count ∷ []

unfoldable pub named : CountField → Option Problem → Option Reason
named field none = none
named field (some problem) = some (count_refused field problem)

module _ (log10 : ℕ → Ratio) (root : ℕ → ℕ) where
  -- `_validate_subscriber_count_percentage`
  unfoldable pub validate_subscriber_count_percentage :
      (submitted age : ℕ) → Option ℤ → Option Problem
  validate_subscriber_count_percentage submitted age actual =
      check_percentage log10 root submitted age actual

  -- `_validate_youtube_engagement_field`
  unfoldable pub validate_youtube_engagement_field : CountField → ℕ → Option ℤ → ℤ → Option Problem
  unfolding field_multiplier is_bidirectional small_tolerance validate_subscriber_count_percentage
  validate_youtube_engagement_field field age actual (negsuc n) = some negative
  validate_youtube_engagement_field field age actual (pos submitted) =
      if is_bidirectional field
      then validate_subscriber_count_percentage submitted age actual
      else check_increasing submitted (small_tolerance field submitted)
          (engagement_tolerance (field_multiplier field) submitted age) actual

  -- A field that was not submitted is passed over.
  unfoldable pub check_count : CountField → ℕ → Option ℤ → Option ℤ → Option Problem
  unfolding validate_youtube_engagement_field
  check_count field age actual none = none
  check_count field age actual (some submitted) =
      validate_youtube_engagement_field field age actual submitted

  -- The loop over the dynamic fields, for an age.
  unfoldable pub check_counts :
      List CountField → ℕ → (submitted actual : YouTubeContent) → Option Reason
  unfolding check_count named
  check_counts [] age submitted actual = none
  check_counts (f ∷ fs) age submitted actual =
      first_problem (named f (check_count f age (actual.counts f) (submitted.counts f)))
        (check_counts fs age submitted actual)
