-- ===== src/Content/Reddit.antt =====
-- scraping/reddit/model.py, and the checks of scraping/reddit/utils.py on media and on content for adults. A ratio of
-- votes is counted in a fixed fine unit.
pub mod Scores
pub mod Comments
pub mod Check
use custom_scraper.Content.{
  DataEntity, ValidationResult, accepted, has_media, media_of, rejected, text_list_same,
}
use custom_scraper.Prelude.{
  Bool, List, Option, String, false, if◌then◌else◌, is_some, leb, none, not, some, string_key, ℕ,
  ◌&&◌,
}
use custom_scraper.Prelude.Int.{ℤ}

pub data RedditDataType : Type 0 where
  post comment : RedditDataType

pub record RedditContent : Type 0 where
  pub id : String
  pub url : String
  pub username : String
  pub community : String
  pub body : String
  pub created_at : ℕ
  pub data_type : RedditDataType
  pub title : Option String
  pub parent_id : Option String
  pub media : Option (List String)
  pub is_nsfw : Option Bool
  pub score : Option ℤ
  pub upvote_ratio : Option ℤ
  pub num_comments : Option ℤ

-- The reasons of the results, one for each text of the source.
pub data Reason : Type 0 where
  not_decoded id_differs url_differs : Reason
  username_differs community_differs body_differs : Reason
  not_obfuscated timestamp_differs data_type_differs : Reason
  title_differs parent_id_too_large parent_id_differs : Reason
  bytes_too_big fields_incorrect not_converted : Reason
  good_job media_skipped media_missing : Reason
  media_fake media_differs media_valid : Reason
  nsfw_skipped nsfw_marked_safe safe_marked_nsfw : Reason
  nsfw_with_media nsfw_valid score_skipped : Reason
  score_too_high score_unrealistic ratio_not_supported : Reason
  ratio_out_of_range score_valid comments_skipped : Reason
  comments_not_supported comments_negative comments_too_many : Reason
  comments_unrealistic comments_penalized comments_suspicious : Reason
  comments_for_score comments_to_score comments_valid : Reason
  ratio_skipped ratio_acceptable_low ratio_reasonable : Reason
  not_reddit_url not_retrieved not_found : Reason

-- `if is_nsfw`
unfoldable pub is_set : Option Bool → Bool
is_set none = false
is_set (some b) = b

-- `validate_media_content`, on the media that were submitted and found. `sort` is `sorted` on texts, `required` is
-- `REDDIT_MEDIA_REQUIRED_DATE`.
unfoldable pub check_media :
    (sort : List String → List String) (required now : ℕ) (media found : Option (List String))
    → DataEntity
    → ValidationResult Reason
unfolding has_media media_of text_list_same
check_media sort required now media found entity =
    if not (is_some media)
    then accepted media_skipped entity
    else if leb required now && has_media found && not (has_media media)
    then rejected media_missing entity
    else if has_media media && not (has_media found)
    then rejected media_fake entity
    else if has_media media && not (text_list_same (sort (media_of found)) (sort (media_of media)))
    then rejected media_differs entity
    else accepted media_valid entity

unfoldable pub validate_media_content :
    (sort : List String → List String) (required now : ℕ) (submitted actual : RedditContent)
    → DataEntity
    → ValidationResult Reason
unfolding check_media
validate_media_content sort required now submitted actual entity =
    check_media sort required now submitted.media actual.media entity

-- `validate_nsfw_content`, on the marks and on whether there are media.
unfoldable pub check_nsfw :
    (marked found : Option Bool) (media found_media : Bool) → DataEntity → ValidationResult Reason
unfolding is_set
check_nsfw marked found media found_media entity =
    if not (is_some marked)
    then accepted nsfw_skipped entity
    else if is_set found && not (is_set marked)
    then rejected nsfw_marked_safe entity
    else if not (is_set found) && is_set marked
    then rejected safe_marked_nsfw entity
    else if is_set marked && media
    then rejected nsfw_with_media entity
    else if is_set found && found_media
    then rejected nsfw_with_media entity
    else accepted nsfw_valid entity

unfoldable pub validate_nsfw_content :
    (submitted actual : RedditContent) → DataEntity → ValidationResult Reason
unfolding check_nsfw has_media
validate_nsfw_content submitted actual entity =
    check_nsfw submitted.is_nsfw actual.is_nsfw (has_media submitted.media) (has_media actual.media)
      entity
