-- ===== src/Content/Reddit/Scores/Tests.antt =====
-- Runs of the check of a score.
use custom_scraper.Content.{DataEntity, accepted, one_day, one_hour, passes}
use custom_scraper.Content.Reddit.{RedditContent, comment, post}
use custom_scraper.Content.Reddit.Scores.{
  calculate_max_reasonable_score, tolerance_for, validate_score_content,
}
use custom_scraper.Content.Reddit.Scores.Laws.{IsPlausible, validate_score_content-le}
use custom_scraper.Prelude.{[], max, none, refl, some, true, ℕ, ◌*◌, ◌+◌, ◌-◌, ◌≡◌}
use custom_scraper.Prelude.Int.{pos, ℤ, ◌+ℤ◌, ◌-ℤ◌, ◌≤ℤ◌}

abbrev content : ℤ → RedditContent
content score = record {
  id = "t3_1";
  url = "u";
  username = "u";
  community = "r/a";
  body = "b";
  created_at = 0;
  data_type = post;
  title = none;
  parent_id = none;
  media = none;
  is_nsfw = none;
  score = some score;
  upvote_ratio = none;
  num_comments = none;
}

abbrev entity : DataEntity
entity = record {
  uri = "u";
  datetime = 0;
  source = 1;
  label = none;
  content = [];
  content_size_bytes = 9;
}

most_of_a_week : calculate_max_reasonable_score post (7 * one_day) ≡ 50000
unfolding calculate_max_reasonable_score
most_of_a_week = refl

most_of_an_hour : calculate_max_reasonable_score comment one_hour ≡ 200
unfolding calculate_max_reasonable_score
most_of_an_hour = refl

passing :
    passes (validate_score_content 100 one_day (content (pos 400)) (content (pos 50)) entity) ≡ true
unfolding validate_score_content ◌-ℤ◌ ◌+ℤ◌ accepted
passing = refl

validate_score_content-le_example :
    (pos 400 ≤ℤ pos 50000)
    × ((found : ℤ) × ((content (pos 50)).score ≡ some found)
        × IsPlausible (pos 400) found (one_day - 0)
        × ((n : ℕ)
            → found ≡ pos n
            → pos 400 ≤ℤ pos (6 * max 1 (n + tolerance_for (pos n) (one_day - 0)))))
validate_score_content-le_example =
    validate_score_content-le 100 one_day (content (pos 400)) (content (pos 50)) entity (pos 400)
      refl passing
