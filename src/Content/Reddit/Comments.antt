-- ===== src/Content/Reddit/Comments.antt =====
-- scraping/reddit/utils.py: the check of the number of comments. Multipliers are counted in thousandths.
pub mod Laws
use custom_scraper.Content.{DataEntity, ValidationResult, accepted, one_day, one_hour, rejected}
use custom_scraper.Content.Reddit.{
  Reason, RedditContent, RedditDataType, comment, comments_for_score, comments_negative,
  comments_not_supported, comments_penalized, comments_skipped, comments_to_score,
  comments_too_many, comments_unrealistic, comments_valid, post, ratio_acceptable_low,
  ratio_reasonable, ratio_skipped,
}
use custom_scraper.Content.Reddit.Scores.{counted_age}
use custom_scraper.Prelude.{
  Bool, Option, false, if◌then◌else◌, leb, ltb, max, min, none, not, some, true, ℕ, ◌&&◌, ◌*◌, ◌+◌,
  ◌-◌, ◌/◌, ◌==◌, ◌||◌,
}
use custom_scraper.Prelude.Int.{int_same, leb_ℤ, negsuc, pos, pos_part, ℤ}

-- The percentage and the least tolerance for an age.
unfoldable pub comment_tolerance : ℕ → ℕ × ℕ
comment_tolerance age =
    if ltb age one_hour
    then (75, 10)
    else if ltb age (6 * one_hour)
    then (60, 8)
    else if ltb age one_day
    then (50, 5)
    else if ltb age (7 * one_day)
    then (35, 3)
    else (25, 2)

-- A score that is above zero, or zero.
unfoldable pub positive_score : Option ℤ → ℕ
positive_score none = 0
positive_score (some s) = pos_part s

-- `min(2.0, 1.0 + score / 1000)` for a score above 100, in thousandths.
unfoldable pub score_multiplier : ℕ → ℕ
score_multiplier score = if ltb 100 score then min 2000 (1000 + score) else 1000

-- `_calculate_comment_count_tolerance`, for the number of comments that was found. The source tests that number for None.
unfoldable pub calculate_comment_count_tolerance : ℕ → ℕ → ℕ → ℕ
unfolding comment_tolerance score_multiplier
calculate_comment_count_tolerance score found age =
    let base_tolerance : ℕ =
      max (found * (comment_tolerance age).0 / 100) (comment_tolerance age).1 in
    base_tolerance * score_multiplier score / 1000

unfoldable pub viral_multiplier : ℕ → ℕ
viral_multiplier score =
    if ltb 10000 score
    then min 50000 score
    else if ltb 1000 score
    then min 20000 score
    else if ltb 100 score
    then min 5000 (1000 + 2 * score)
    else 1000

-- `_calculate_max_reasonable_comment_count`
unfoldable pub calculate_max_reasonable_comment_count : ℕ → ℕ → ℕ
unfolding viral_multiplier counted_age
calculate_max_reasonable_comment_count score age =
    let first : ℕ = 200 * viral_multiplier score * counted_age age / (1000 * one_hour) in
    let second : ℕ = if ltb (2 * one_day) (counted_age age) then first * 6 / 10 else first in
    let third : ℕ = if ltb (7 * one_day) (counted_age age) then second * 3 / 10 else second in
    min third 100000

-- The largest ratio of comments to a score above zero.
unfoldable pub max_reasonable_ratio : ℕ → ℕ
max_reasonable_ratio score = if leb score 3 then 10 else if leb score 10 then 8 else 5

-- `_validate_comment_score_ratio`, for a number of comments.
unfoldable pub validate_comment_score_ratio : Option ℤ → ℕ → DataEntity → ValidationResult Reason
unfolding max_reasonable_ratio
validate_comment_score_ratio none comments entity = accepted ratio_skipped entity
validate_comment_score_ratio (some score) comments entity =
    if int_same score (pos 0) || comments == 0
    then accepted ratio_skipped entity
    else if leb_ℤ score (pos 0)
    then (if ltb 50 comments
        then rejected comments_for_score entity
        else accepted ratio_acceptable_low entity)
    else if ltb (max_reasonable_ratio (pos_part score) * pos_part score) comments
    then rejected comments_to_score entity
    else accepted ratio_reasonable entity

-- The bounds on the number of comments, from the number that was found, which is not negative.
unfoldable pub comment_bounds : ℕ → ℕ → ℕ × ℕ
comment_bounds found tolerance =
    if found == 0
    then (0, max tolerance 10)
    else (found - min (tolerance / 10) 2, found + tolerance)

-- How far a number is outside of its bounds: a fraction, as its numerator and its denominator.
unfoldable pub deviation : ℕ → ℕ → ℕ → ℕ → ℕ × ℕ
deviation comments least most found =
    if ltb most comments then (comments - most, max most 1) else (least - comments, max found 1)

-- `int(size * (1.0 - min(0.4, deviation * 0.08)))`
unfoldable pub penalized : ℕ → ℕ × ℕ → ℕ
penalized size (by, of) = size * max (60 * of) (100 * of - 8 * by) / (100 * of)

-- The check of the bounds, and then of the ratio, whose result is an argument.
unfoldable pub check_between :
    (comments least most found : ℕ) → ValidationResult Reason → DataEntity → ValidationResult Reason
unfolding deviation
check_between comments least most found ratio entity =
    let (by, of) = deviation comments least most found in
    if leb least comments && leb comments most
    then (if ratio.is_valid then accepted comments_valid entity else ratio)
    else if ltb (8 * of) by
    then rejected comments_unrealistic entity
    else record {
      is_valid = true;
      reason = comments_penalized;
      content_size_bytes_validated = penalized entity.content_size_bytes (by, of);
    }

-- The end of `validate_comment_count`, from the tolerance on.
unfoldable pub check_bounds : ℕ → ℕ → ℕ → Option ℤ → DataEntity → ValidationResult Reason
unfolding comment_bounds check_between penalized validate_comment_score_ratio
check_bounds comments found tolerance score entity =
    let (least, most) = comment_bounds found tolerance in
    check_between comments least most found (validate_comment_score_ratio score comments entity)
      entity

-- The checks against the number that was found; `none` is the error of an addition to None.
unfoldable pub check_found_comments :
    (comments score_part age : ℕ) (score found : Option ℤ)
    → DataEntity
    → Option (ValidationResult Reason)
unfolding calculate_comment_count_tolerance check_bounds
check_found_comments comments score_part age score none entity = none
check_found_comments comments score_part age score (some found) entity = some (
    check_bounds comments (pos_part found)
      (calculate_comment_count_tolerance score_part (pos_part found) age) score entity)

-- `validate_comment_count` for the post's number of comments that was submitted.
unfoldable pub check_comments :
    (now : ℕ) (submitted actual : RedditContent) → DataEntity → ℤ → Option (ValidationResult Reason)
unfolding positive_score calculate_max_reasonable_comment_count check_found_comments
check_comments now submitted actual entity (negsuc n) = some (rejected comments_negative entity)
check_comments now submitted actual entity (pos comments) =
    let age = now - submitted.created_at in
    let score = positive_score submitted.score in
    if ltb (calculate_max_reasonable_comment_count score age) comments
    then some (rejected comments_too_many entity)
    else check_found_comments comments score age submitted.score actual.num_comments entity

unfoldable pub is_post : RedditDataType → Bool
is_post post = true
is_post comment = false

-- `validate_comment_count`, on the number that was submitted.
unfoldable pub counted :
    (now : ℕ) (submitted actual : RedditContent)
    → DataEntity
    → Option ℤ
    → Option (ValidationResult Reason)
unfolding is_post check_comments
counted now submitted actual entity none = some (accepted comments_skipped entity)
counted now submitted actual entity (some comments) =
    if not (is_post submitted.data_type)
    then some (rejected comments_not_supported entity)
    else check_comments now submitted actual entity comments

unfoldable pub validate_comment_count :
    (now : ℕ) (submitted actual : RedditContent) → DataEntity → Option (ValidationResult Reason)
unfolding counted
validate_comment_count now submitted actual entity =
    counted now submitted actual entity submitted.num_comments
