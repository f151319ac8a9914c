-- ===== src/Content/Reddit/Check/Tests.antt =====
-- Runs of the checks of entities of Reddit.
use custom_scraper.Content.{
  DataEntity, ValidationResult, accepted, are_non_content_fields_equal, data_label,
  obfuscate_datetime_to_minute, passes, rejected,
}
use custom_scraper.Content.Reddit.{
  Reason, RedditContent, bytes_too_big, comments_penalized, good_job, post, score_unrealistic,
  validate_media_content, validate_nsfw_content,
}
use custom_scraper.Content.Reddit.Check.{validate_entity}
use custom_scraper.Content.Reddit.Check.Accepted.{AgreesInAll, validate_entity_lem}
use custom_scraper.Content.Reddit.Check.Sizes.{
  SaysClaimedIf, validate_entity-content_size_bytes_validated,
}
use custom_scraper.Content.Reddit.Comments.{validate_comment_count}
use custom_scraper.Content.Reddit.Scores.{validate_score_content}
use custom_scraper.Prelude.{
  Option, String, [], false, inr, member, none, refl, some, true, ℕ, ◌↔◌, ◌∷◌, ◌≡◌, ◌⊎◌,
}
use custom_scraper.Prelude.Int.{pos, ℤ, ◌+ℤ◌, ◌-ℤ◌}

abbrev content : Option String → ℤ → ℤ → RedditContent
content parent score comments = record {
  id = "t3_1";
  url = "https://www.reddit.com/r/a/1";
  username = "u";
  community = "r/a";
  body = "b";
  created_at = 120000000;
  data_type = post;
  title = some "t";
  parent_id = parent;
  media = some ("i.jpg" ∷ []);
  is_nsfw = some false;
  score = some score;
  upvote_ratio = some (pos 90);
  num_comments = some comments;
}

abbrev entity : ℕ → DataEntity
entity size = record {
  uri = "https://www.reddit.com/r/a/1";
  datetime = 125000000;
  source = 1;
  label = some "r/a";
  content = 1 ∷ 2 ∷ [];
  content_size_bytes = size;
}

-- The content that was found, with its instant to the second.
abbrev found : ℕ → RedditContent
found comments = record (content none (pos 40) (pos comments)) { created_at = 125000000 }

abbrev retrieved : Unit {0} ⊎ Option RedditContent
retrieved = inr (some (found 12))

-- A validation one hour and two minutes after the epoch, for a coding to three bytes.
abbrev validated : ℤ → ℤ → ℕ → Option (ValidationResult Reason)
validated score comments size =
    validate_entity (λ s. s) (λ n s. s) (λ c. 1 ∷ 2 ∷ 3 ∷ [])
      (λ bytes. some (content none score comments)) (λ urls. urls) 100 0 3720000000 (λ s. true)
      retrieved (entity size)

honest : validated (pos 38) (pos 10) 3 ≡ some (accepted good_job (entity 3))
unfolding validate_entity member obfuscate_datetime_to_minute data_label
    are_non_content_fields_equal validate_score_content ◌-ℤ◌ ◌+ℤ◌ accepted validate_comment_count
    validate_media_content validate_nsfw_content
honest = refl

too_big : validated (pos 38) (pos 10) 4 ≡ some (rejected bytes_too_big (entity 4))
unfolding validate_entity obfuscate_datetime_to_minute data_label rejected
too_big = refl

inflated : validated (pos 421) (pos 10) 3 ≡ some (rejected score_unrealistic (entity 3))
unfolding validate_entity obfuscate_datetime_to_minute data_label are_non_content_fields_equal
    validate_score_content ◌-ℤ◌ ◌+ℤ◌ rejected
inflated = refl

-- A number of comments that costs a penalty of the size, and the result of the whole, which says the claimed size.
penalty :
    validate_comment_count 3720000000 (content none (pos 30) (pos 60)) (found 12) (entity 1000)
    ≡ some (record {
      is_valid = true;
      reason = comments_penalized;
      content_size_bytes_validated = 840;
    })
unfolding validate_comment_count
penalty = refl

no_penalty : validated (pos 30) (pos 60) 3 ≡ some (accepted good_job (entity 3))
unfolding validate_entity obfuscate_datetime_to_minute data_label are_non_content_fields_equal
    validate_score_content ◌-ℤ◌ ◌+ℤ◌ accepted validate_comment_count validate_media_content
    validate_nsfw_content
no_penalty = refl

-- No score was found: the addition raises.
raising :
    validate_score_content 100 3720000000
      (content none (pos 30) (pos 60))
      (record (found 12) { score = none })
      (entity 3)
    ≡ none
unfolding validate_score_content
raising = refl

validate_entity_lem_example : (passes (validated (pos 38) (pos 10) 3) ≡ true) ↔ (
    (true ≡ true)
    × ((s : RedditContent) × (a : RedditContent) × ((some (content none (pos 38) (pos 10)) ≡ some s)
          × (retrieved ≡ inr (some a))
          × AgreesInAll
              (λ s. s)
              (λ n s. s)
              (λ c. 1 ∷ 2 ∷ 3 ∷ [])
              (λ urls. urls)
              100
              0
              3720000000
              s
              a
              (entity 3))))
validate_entity_lem_example =
    validate_entity_lem (λ s. s) (λ n s. s) (λ c. 1 ∷ 2 ∷ 3 ∷ [])
      (λ bytes. some (content none (pos 38) (pos 10))) (λ urls. urls) 100 0 3720000000 (λ s. true)
      retrieved (entity 3)

validate_entity-content_size_bytes_validated_example :
    SaysClaimedIf (entity 1000) (validated (pos 30) (pos 60) 1000)
validate_entity-content_size_bytes_validated_example =
    validate_entity-content_size_bytes_validated (λ s. s) (λ n s. s) (λ c. 1 ∷ 2 ∷ 3 ∷ [])
      (λ bytes. some (content none (pos 30) (pos 60))) (λ urls. urls) 100 0 3720000000 (λ s. true)
      retrieved (entity 1000)
