-- ===== src/Content/Reddit/Scores.antt =====
-- scraping/reddit/utils.py: the check of a score. Percentages and hourly rates are kept as whole numbers, and a product is
-- cut to a whole number as `int` cuts it. An age below zero counts as zero, as in every test that reads it.
mod Tests
pub mod Laws
use custom_scraper.Content.{DataEntity, ValidationResult, accepted, one_day, one_hour, rejected}
use custom_scraper.Content.Reddit.{
  Reason, RedditContent, RedditDataType, comment, post, ratio_not_supported, ratio_out_of_range,
  score_skipped, score_too_high, score_unrealistic, score_valid,
}
use custom_scraper.Prelude.{
  Bool, Option, false, if◌then◌else◌, ltb, max, min, none, some, ℕ, ◌&&◌, ◌*◌, ◌-◌, ◌/◌,
}
use custom_scraper.Prelude.Int.{leb_ℤ, ltb_ℤ, magnitude, pos, pos_part, ℤ, ◌+ℤ◌, ◌-ℤ◌}

-- The percentage and the least tolerance for an age.
unfoldable pub score_tolerance : ℕ → ℕ × ℕ
score_tolerance age =
    if ltb age one_hour
    then (50, 10)
    else if ltb age (6 * one_hour)
    then (75, 20)
    else if ltb age one_day
    then (100, 30)
    else if ltb age (7 * one_day)
    then (150, 50)
    else (200, 100)

-- `max(age_hours, 0.1)`
unfoldable pub counted_age : ℕ → ℕ
counted_age age = max age (one_hour / 10)

-- The hourly rate and the absolute maximum of a score.
unfoldable pub score_rate : RedditDataType → ℕ × ℕ
score_rate post = (500, 50000)
score_rate comment = (200, 10000)

-- `_calculate_max_reasonable_score`
unfoldable pub calculate_max_reasonable_score : RedditDataType → ℕ → ℕ
unfolding counted_age score_rate
calculate_max_reasonable_score type age =
    let (rate, most) = score_rate type in
    let first : ℕ = rate * counted_age age / one_hour in
    let second : ℕ = if ltb one_day (counted_age age) then first * 7 / 10 else first in
    let third : ℕ = if ltb (7 * one_day) (counted_age age) then second * 5 / 10 else second in
    min third most

-- The allowance for a score, from the score that was found.
unfoldable pub tolerance_for : ℤ → ℕ → ℕ
unfolding score_tolerance
tolerance_for actual age =
    max (magnitude actual * (score_tolerance age).0 / 100) (score_tolerance age).1

-- The part of a number above zero, at least one.
unfoldable pub at_least_one : ℤ → ℕ
at_least_one a = max (pos_part a) 1

-- `score_deviation > 5.0`, for a score outside of its bounds.
unfoldable pub is_extreme_score : ℤ → ℤ → ℕ → Bool
unfolding at_least_one tolerance_for
is_extreme_score submitted actual age =
    let tolerance = tolerance_for actual age in
    let most = actual +ℤ pos tolerance in
    let least = actual -ℤ pos (min (tolerance / 2) 10) in
    if leb_ℤ least submitted && leb_ℤ submitted most
    then false
    else if ltb_ℤ most submitted
    then ltb_ℤ (most +ℤ pos (5 * at_least_one most)) submitted
    else ltb_ℤ (submitted +ℤ pos (5 * at_least_one actual)) least

-- The last check of `validate_score_content`, on the ratio of votes; `one` stands for 1.0.
unfoldable pub check_ratio : ℕ → Option ℤ → Option ℤ → DataEntity → ValidationResult Reason
check_ratio one none actual entity = accepted score_valid entity
check_ratio one (some ratio) none entity = rejected ratio_not_supported entity
check_ratio one (some ratio) (some _) entity =
    if leb_ℤ (pos 0) ratio && leb_ℤ ratio (pos one)
    then accepted score_valid entity
    else rejected ratio_out_of_range entity

-- The checks against the score that was found; `none` is the error of an addition to None.
unfoldable pub check_found :
    (one age : ℕ) (score : ℤ) (found ratio found_ratio : Option ℤ)
    → DataEntity
    → Option (ValidationResult Reason)
check_found one age score none ratio found_ratio entity = none
check_found one age score (some found) ratio found_ratio entity =
    if is_extreme_score score found age
    then some (rejected score_unrealistic entity)
    else some (check_ratio one ratio found_ratio entity)

-- `validate_score_content` for a score that was submitted.
unfoldable pub check_score :
    (one now : ℕ) (score : ℤ) (submitted actual : RedditContent)
    → DataEntity
    → Option (ValidationResult Reason)
unfolding calculate_max_reasonable_score is_extreme_score check_ratio check_found
check_score one now score submitted actual entity =
    let age = now - submitted.created_at in
    if ltb_ℤ (pos (calculate_max_reasonable_score submitted.data_type age)) score
    then some (rejected score_too_high entity)
    else check_found one age score actual.score submitted.upvote_ratio actual.upvote_ratio entity

-- `validate_score_content`, on the score that was submitted.
unfoldable pub scored :
    (one now : ℕ) (submitted actual : RedditContent)
    → DataEntity
    → Option ℤ
    → Option (ValidationResult Reason)
unfolding check_score
scored one now submitted actual entity none = some (accepted score_skipped entity)
scored one now submitted actual entity (some score) =
    check_score one now score submitted actual entity

unfoldable pub validate_score_content :
    (one now : ℕ) (submitted actual : RedditContent) → DataEntity → Option (ValidationResult Reason)
unfolding scored
validate_score_content one now submitted actual entity =
    scored one now submitted actual entity submitted.score
