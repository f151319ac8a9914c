-- ===== src/Reddit/RateLimiter/Tests.antt =====
-- Runs of the rate limiter.
use custom_scraper.Prelude.{
  [], arith, false, refl, some, string_key, ℕ, ◌*◌, ◌+◌, ◌-◌, ◌∷◌, ◌≡◌, ◌≤◌,
}
use custom_scraper.Prelude.Dict.{lookup, modify}
use custom_scraper.Reddit.RateLimiter.{Bucket, Buckets, Round, acquire, try_acquire_once}
use custom_scraper.Reddit.RateLimiter.Rate.{granted, granted-le}

abbrev bucket : Bucket
bucket = record { capacity = 2000; tokens = 2000; refill_rate = 2; updated_at = 0 }

abbrev table : Buckets
table = ("replace_more", bucket) ∷ []

-- Two tokens at once, none left for a third, and one more after half a second.
two_then_one :
    granted ((0, 1000) ∷ (0, 1000) ∷ (10, 1000) ∷ (510, 1000) ∷ []) "replace_more" table ≡ 3000
unfolding granted try_acquire_once lookup modify
two_then_one = refl

granted-le_example :
    granted ((0, 1000) ∷ (10, 1000) ∷ (510, 1000) ∷ []) "replace_more" table ≤ 2000 + 2 * (600 - 0)
granted-le_example =
    granted-le ((0, 1000) ∷ (10, 1000) ∷ (510, 1000) ∷ []) "replace_more" table bucket 600
      (unfold lookup in refl) (omega arith)

abbrev idle : ℕ → Round
idle t = record { tried = t; checked = t; others = λ d. d }

timed_out : (acquire 0 (some 100) (idle 0 ∷ idle 100 ∷ []) "replace_more" 5000 table).0 ≡ some false
unfolding acquire lookup modify
timed_out = refl
