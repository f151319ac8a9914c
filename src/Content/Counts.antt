-- ===== src/Content/Counts.antt =====
-- The checks of counts that scraping/x/utils.py and scraping/youtube/utils.py share in form: the numbers of likes and views,
-- which only increase, and of followers. Percentages and multipliers are kept as whole numbers. The logarithm and the
-- square root of `math` are parameters.
mod Tests
pub mod Laws
use custom_scraper.Content.{one_day, one_hour}
use custom_scraper.Prelude.{
  Bool, Option, false, if◌then◌else◌, leb, ltb, max, none, not, some, suc, zero, ℕ, ◌&&◌, ◌*◌, ◌+◌,
  ◌-◌, ◌/◌,
}
use custom_scraper.Prelude.Int.{ltb_ℤ, negsuc, pos, ℤ, ◌+ℤ◌}
use custom_scraper.Ratio.{Ratio, over}

-- Why a count is refused.
pub data Problem : Type 0 where
  negative decreased outside_range differs_too_much : Problem

-- The percentage and the least tolerance for an age.
unfoldable pub age_tolerance : ℕ → ℕ × ℕ
age_tolerance age =
    if ltb age one_hour
    then (100, 20)
    else if ltb age (6 * one_hour)
    then (75, 15)
    else if ltb age one_day
    then (50, 10)
    else if ltb age (7 * one_day)
    then (30, 5)
    else (20, 3)

-- `_calculate_engagement_tolerance`, with the multiplier of the field in tenths.
unfoldable pub engagement_tolerance : ℕ → ℕ → ℕ → ℕ
unfolding age_tolerance
engagement_tolerance multiplier base age =
    max (base * (age_tolerance age).0 / 100) (age_tolerance age).1 * multiplier / 10

-- The comparison with a count that was found, or not.
unfoldable pub is_decrease : ℕ → ℕ → Option ℤ → Bool
is_decrease submitted small none = false
is_decrease submitted small (some actual) = ltb_ℤ (actual +ℤ pos small) (pos submitted)

-- A count that only increases: the tolerance for decreases and the tolerance for its age are arguments.
unfoldable pub check_increasing : (submitted small tolerance : ℕ) → Option ℤ → Option Problem
unfolding is_decrease
check_increasing submitted small tolerance actual =
    if is_decrease submitted small actual
    then some decreased
    else if not (leb (submitted - small) submitted && leb submitted (submitted + tolerance))
    then some outside_range
    else none

-- `min(r, k)`
unfoldable pub capped_at : ℕ → Ratio → Ratio
capped_at k r = if ltb (k * r.den) r.num then over k 1 else r

-- The multiplier for an age, in tenths.
unfoldable pub age_multiplier : ℕ → ℕ
age_multiplier age =
    if ltb age one_day
    then 10
    else if ltb age (7 * one_day)
    then 15
    else if ltb age (30 * one_day)
    then 25
    else 40

module _ (log10 : ℕ → Ratio) where
  -- The percentage by which a count may differ, before the multiplier for the age.
  unfoldable pub base_percentage : ℕ → Ratio
  unfolding capped_at
  base_percentage actual =
      let log = log10 (max actual 10) in capped_at 50 (over (200 * log.den) log.num)

  unfoldable pub max_percentage : ℕ → ℕ → Ratio
  unfolding base_percentage age_multiplier
  max_percentage actual age =
      let base = base_percentage actual in
      capped_at 500 (over (base.num * age_multiplier age) (base.den * 10))

module _ (log10 : ℕ → Ratio) (root : ℕ → ℕ) where
  -- The tolerance for a count that was found; `root n` is `int(math.sqrt(n) * 10)`.
  unfoldable pub final_tolerance : ℕ → ℕ → ℕ
  unfolding max_percentage
  final_tolerance actual age =
      let most = max_percentage log10 actual age in
      max (actual * most.num / (most.den * 100)) (max (root actual) 50)

  -- A count that may go up and down, against one above zero that was found.
  unfoldable pub check_against : (submitted actual age : ℕ) → Option Problem
  unfolding final_tolerance
  check_against submitted actual age =
      let tolerance = final_tolerance actual age in
      if not (leb (actual - tolerance) submitted && leb submitted (actual + tolerance))
      then some differs_too_much
      else none

  unfoldable pub check_percentage : (submitted age : ℕ) → Option ℤ → Option Problem
  unfolding check_against
  check_percentage submitted age none = none
  check_percentage submitted age (some (negsuc n)) = none
  check_percentage submitted age (some (pos zero)) = none
  check_percentage submitted age (some (pos (suc n))) = check_against submitted (suc n) age
