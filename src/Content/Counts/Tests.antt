-- ===== src/Content/Counts/Tests.antt =====
-- Runs of the checks of counts.
use custom_scraper.Content.{one_day}
use custom_scraper.Content.Counts.{
  check_increasing, check_percentage, decreased, differs_too_much, max_percentage,
}
use custom_scraper.Content.Counts.Laws.{check_percentage-le}
use custom_scraper.Prelude.{max, none, refl, some, ℕ, ◌*◌, ◌+◌, ◌≡◌, ◌≤◌}
use custom_scraper.Prelude.Int.{pos, ◌+ℤ◌}
use custom_scraper.Ratio.{Ratio, over}

-- A logarithm that is one everywhere, and a root for one number.
abbrev log : ℕ → Ratio
log n = over 1 1

near : check_percentage log (λ n. 100) 290 (40 * one_day) (some (pos 100)) ≡ none
unfolding check_percentage
near = refl

far : check_percentage log (λ n. 100) 301 (40 * one_day) (some (pos 100)) ≡ some differs_too_much
unfolding check_percentage
far = refl

decreases : check_increasing 121 20 40 (some (pos 100)) ≡ some decreased
unfolding check_increasing ◌+ℤ◌
decreases = refl

-- A count of nothing passes, however large the one that was found.
nothing : check_increasing 0 20 3 (some (pos 1000000)) ≡ none
unfolding check_increasing ◌+ℤ◌
nothing = refl

check_percentage-le_example :
    ((max_percentage log 100 (40 * one_day)).num
      ≤ 200 * (max_percentage log 100 (40 * one_day)).den)
    × (290 ≤ 100 + max (2 * 100) (max 100 50))
check_percentage-le_example = check_percentage-le log (λ n. 100) 290 (40 * one_day) 99 near
