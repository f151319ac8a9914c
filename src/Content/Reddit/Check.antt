-- ===== src/Content/Reddit/Check.antt =====
-- scraping/reddit/utils.py: validate_reddit_content, and the checks of one entity in scraping/reddit/reddit_custom_scraper.py.
-- The coding of a content as JSON and the functions of Python's `str` are parameters.
pub mod Laws
pub mod Accepted
pub mod Sizes
mod Tests
use Prim.Native.String.{count}
use custom_scraper.Content.{
  DataEntity, ValidationResult, accepted, are_non_content_fields_equal, data_label,
  max_label_length, obfuscate_datetime_to_minute, reddit_source, refused, rejected,
}
use custom_scraper.Content.Reddit.{
  Reason, RedditContent, RedditDataType, body_differs, bytes_too_big, comment, community_differs,
  data_type_differs, fields_incorrect, good_job, id_differs, not_converted, not_decoded, not_found,
  not_obfuscated, not_reddit_url, not_retrieved, parent_id_differs, parent_id_too_large, post,
  timestamp_differs, title_differs, url_differs, username_differs, validate_media_content,
  validate_nsfw_content,
}
use custom_scraper.Content.Reddit.Comments.{validate_comment_count}
use custom_scraper.Content.Reddit.Scores.{validate_score_content}
use custom_scraper.Prelude.{
  Bool, List, Option, String, false, if◌then◌else◌, inl, inr, length, ltb, none, not, option_same,
  some, string_key, true, ℕ, ◌&&◌, ◌==◌, ◌⊎◌,
}
use custom_scraper.Prelude.Iff.{first_problem}
use mathlib.Core.Option

-- The checks that compare one field each, up to the title.
unfoldable pub check_texts : (submitted actual : RedditContent) → Option Reason
check_texts submitted actual =
    if not (string_key.same submitted.id actual.id)
    then some id_differs
    else if not (string_key.same submitted.url actual.url)
    then some url_differs
    else if not (string_key.same submitted.username actual.username)
    then some username_differs
    else if not (string_key.same submitted.community actual.community)
    then some community_differs
    else if not (string_key.same submitted.body actual.body)
    then some body_differs
    else none

unfoldable pub type_same : RedditDataType → RedditDataType → Bool
type_same post post = true
type_same comment comment = true
type_same _ _ = false

unfoldable pub check_kind : (submitted actual : RedditContent) → Option Reason
unfolding type_same
check_kind submitted actual =
    if not (submitted.created_at == obfuscate_datetime_to_minute actual.created_at)
    then (if submitted.created_at == actual.created_at
        then some not_obfuscated
        else some timestamp_differs)
    else if not (type_same submitted.data_type actual.data_type)
    then some data_type_differs
    else if not (option_same submitted.title actual.title)
    then some title_differs
    else none

-- The check of the parent: a problem, or the parent that is left for both contents.
unfoldable pub check_parent : Option String → Option String → Reason ⊎ Option String
check_parent none none = inr none
check_parent none (some _) = inl parent_id_differs
check_parent (some _) none = inl parent_id_differs
check_parent (some claimed) (some parent) =
    if ltb (count parent) (count claimed)
    then inl parent_id_too_large
    else if string_key.same claimed parent
    then inr (some parent)
    else inr none

-- A check that follows one which passed, of which only a refusal is kept.
unfoldable pub with_media :
    (sort : List String → List String) (required now : ℕ) (submitted actual : RedditContent)
    → DataEntity
    → ValidationResult Reason
    → ValidationResult Reason
with_media sort required now submitted actual entity r =
    let media = validate_media_content sort required now submitted actual entity in
    if r.is_valid && not media.is_valid then media else r

unfoldable pub with_nsfw :
    (submitted actual : RedditContent)
    → DataEntity
    → ValidationResult Reason
    → ValidationResult Reason
with_nsfw submitted actual entity r =
    let nsfw = validate_nsfw_content submitted actual entity in
    if r.is_valid && not nsfw.is_valid then nsfw else r

-- The comparison with the entity that the content found would have; without one its making has failed.
unfoldable pub compare_entity : Option DataEntity → DataEntity → Option Reason
compare_entity none entity = some not_converted
compare_entity (some actual) entity =
    if ltb actual.content_size_bytes entity.content_size_bytes
    then some bytes_too_big
    else if not (are_non_content_fields_equal actual entity)
    then some fields_incorrect
    else none

-- The result after the check of the comments.
unfoldable pub kept : DataEntity → ValidationResult Reason → ValidationResult Reason
kept entity r = if r.is_valid then accepted good_job entity else r

-- The results of the two checks of numbers: only a refusal is kept, and the second is not made after a refusal.
unfoldable pub both :
    Option (ValidationResult Reason)
    → Option (ValidationResult Reason)
    → DataEntity
    → Option (ValidationResult Reason)
unfolding kept
both none comments entity = none
both (some score) comments entity =
    if score.is_valid then Option.map (kept entity) comments else some score

-- The checks of the score and of the comments.
unfoldable pub check_numbers :
    (one now : ℕ) (submitted actual : RedditContent) → DataEntity → Option (ValidationResult Reason)
unfolding both
check_numbers one now submitted actual entity =
    both (validate_score_content one now submitted actual entity)
      (validate_comment_count now submitted actual entity) entity

module _ (lower : String → String) (first : ℕ → String → String)
    (encode : RedditContent → List ℕ) where
  -- `RedditContent.to_data_entity`, which obfuscates the instant of the content but not that of the entity; `none` is an
  -- error.
  unfoldable pub to_data_entity : RedditContent → Option DataEntity
  to_data_entity content =
      let coded =
        encode (record content { created_at = obfuscate_datetime_to_minute content.created_at }) in
      elim (data_label lower (first max_label_length (lower content.community))) [
        | none ↦ none
        | some label ↦ some (record {
          uri = content.url;
          datetime = content.created_at;
          source = reddit_source;
          label = some label;
          content = coded;
          content_size_bytes = length coded;
        })
      ]

  unfoldable pub check_entity : RedditContent → DataEntity → Option Reason
  unfolding to_data_entity compare_entity
  check_entity actual entity = compare_entity (to_data_entity actual) entity

  -- What follows the check of the parent.
  unfoldable pub check_after_parent :
      RedditContent → DataEntity → Reason ⊎ Option String → Option Reason
  unfolding check_entity
  check_after_parent actual entity (inl reason) = some reason
  check_after_parent actual entity (inr parent) =
      check_entity (record actual { parent_id = parent }) entity

  -- Every check before those of the score and of the number of comments, in the order of the source.
  unfoldable pub check_content : (submitted actual : RedditContent) → DataEntity → Option Reason
  unfolding check_texts check_kind check_parent check_after_parent
  check_content submitted actual entity = first_problem (check_texts submitted actual) (
      first_problem (check_kind submitted actual)
        (check_after_parent actual entity (check_parent submitted.parent_id actual.parent_id)))

  -- `validate_reddit_content`, on the content that was decoded.
  unfoldable pub check_decoded :
      (one now : ℕ) (actual : RedditContent)
      → DataEntity
      → Option RedditContent
      → Option (ValidationResult Reason)
  unfolding check_content check_numbers
  check_decoded one now actual entity none = some (rejected not_decoded entity)
  check_decoded one now actual entity (some submitted) =
      refused (check_content submitted actual entity) entity
        (check_numbers one now submitted actual entity)

  -- `none` is an error that the function raises; `decode` is `RedditContent.from_data_entity`.
  unfoldable pub validate_reddit_content :
      (decode : List ℕ → Option RedditContent) (one now : ℕ) (actual : RedditContent)
      → DataEntity
      → Option (ValidationResult Reason)
  unfolding check_decoded
  validate_reddit_content decode one now actual entity =
      check_decoded one now actual entity (decode entity.content)

  module _ (decode : List ℕ → Option RedditContent) (sort : List String → List String)
      (one required now : ℕ) where
    -- The steps 4 to 7 of the loop, for what was found on Reddit: `inl` is an error of the retrieval.
    unfoldable pub check_retrieved :
        RedditContent
        → DataEntity
        → Unit {0} ⊎ Option RedditContent
        → Option (ValidationResult Reason)
    unfolding validate_reddit_content with_media with_nsfw
    check_retrieved submitted entity (inl _) = some (rejected not_retrieved entity)
    check_retrieved submitted entity (inr none) = some (rejected not_found entity)
    check_retrieved submitted entity (inr (some actual)) =
        Option.map
          (λ (r : ValidationResult Reason).
            with_nsfw submitted actual entity
              (with_media sort required now submitted actual entity r))
          (validate_reddit_content decode one now actual entity)

    -- The steps from the decoding on.
    unfoldable pub check_submitted :
        DataEntity
        → Unit {0} ⊎ Option RedditContent
        → Option RedditContent
        → Option (ValidationResult Reason)
    unfolding check_retrieved
    check_submitted entity found none = some (rejected not_decoded entity)
    check_submitted entity found (some submitted) = check_retrieved submitted entity found

    -- The body of the loop of `RedditCustomScraper.validate`; `is_url` is `is_valid_reddit_url`.
    unfoldable pub validate_entity :
        (is_url : String → Bool)
        → Unit {0} ⊎ Option RedditContent
        → DataEntity
        → Option (ValidationResult Reason)
    unfolding check_submitted
    validate_entity is_url found entity =
        if not (is_url entity.uri)
        then some (rejected not_reddit_url entity)
        else check_submitted entity found (decode entity.content)
