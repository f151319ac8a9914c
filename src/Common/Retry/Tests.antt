-- ===== src/Common/Retry/Tests.antt =====
-- A function that answers the second time, and one that never does.
use custom_scraper.Common.Retry.{async_run_with_retry, reraised, returned}
use custom_scraper.Common.Retry.Laws.{Answers, async_run_with_retry_lem}
use custom_scraper.Prelude.{if◌then◌else◌, inl, inr, refl, ℕ, ◌==◌, ◌≡◌, ◌⊎◌}

abbrev second_time : ℕ → ℕ ⊎ ℕ
second_time attempt = if attempt == 2 then inr 7 else inl attempt

abbrev never : ℕ → ℕ ⊎ ℕ
never attempt = inl attempt

async_run_with_retry_lem_example : Answers second_time 1 2 (async_run_with_retry second_time 3)
async_run_with_retry_lem_example = async_run_with_retry_lem second_time 2

answers_second : async_run_with_retry second_time 3 ≡ (returned 7, 2)
unfolding async_run_with_retry
answers_second = refl

last_error : async_run_with_retry never 3 ≡ (reraised 3, 3)
unfolding async_run_with_retry
last_error = refl
