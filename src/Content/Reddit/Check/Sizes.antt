-- ===== src/Content/Reddit/Check/Sizes.antt =====
-- The size that the result of a check says is validated.
use custom_scraper.Content.{DataEntity, ValidationResult, accepted, refused, rejected}
use custom_scraper.Content.Reddit.{
  Reason, RedditContent, check_media, check_nsfw, comments_negative, comments_not_supported,
  comments_skipped, comments_too_many, not_decoded, not_found, not_reddit_url, not_retrieved,
  ratio_not_supported, ratio_out_of_range, score_skipped, score_too_high, score_unrealistic,
  score_valid, validate_media_content, validate_nsfw_content,
}
use custom_scraper.Content.Reddit.Check.{
  both, check_content, check_decoded, check_numbers, check_retrieved, check_submitted, kept,
  validate_entity, validate_reddit_content, with_media, with_nsfw,
}
use custom_scraper.Content.Reddit.Comments.{
  calculate_comment_count_tolerance, calculate_max_reasonable_comment_count, check_between,
  check_bounds, check_comments, check_found_comments, comment_bounds, counted, is_post,
  positive_score, validate_comment_count, validate_comment_score_ratio,
}
use custom_scraper.Content.Reddit.Scores.{
  calculate_max_reasonable_score, check_found, check_ratio, check_score, is_extreme_score, scored,
  validate_score_content,
}
use custom_scraper.Prelude.{
  Bool, List, Option, String, arith, false, if◌then◌else◌, inl, inr, ltb, none, not, refl, some,
  true, ℕ, ◌&&◌, ◌-◌, ◌≡◌, ◌⊎◌,
}
use custom_scraper.Prelude.Int.{ltb_ℤ, negsuc, pos, pos_part, ℤ}
use mathlib.Core.Option

-- The result says the size that the entity claims.
abbrev pub SaysClaimed : DataEntity → ValidationResult Reason → Type 0
SaysClaimed e r = r.content_size_bytes_validated ≡ e.content_size_bytes

-- So does the result of a check that returns one.
abbrev pub SaysClaimedIf : DataEntity → Option (ValidationResult Reason) → Type 0
SaysClaimedIf e none = Unit
SaysClaimedIf e (some r) = SaysClaimed e r

module _ (e : DataEntity) where
  rejected_says : (reason : Reason) → SaysClaimed e (rejected reason e)
  unfolding rejected
  rejected_says reason = refl

  accepted_says : (reason : Reason) → SaysClaimed e (accepted reason e)
  unfolding accepted
  accepted_says reason = refl

  chosen_says :
      (b : Bool) (r t : ValidationResult Reason)
      → SaysClaimed e r
      → SaysClaimed e t
      → SaysClaimed e (if b then r else t)
  chosen_says true r t h k = h
  chosen_says false r t h k = k

  chosen_says_if :
      (b : Bool) (r t : Option (ValidationResult Reason))
      → SaysClaimedIf e r
      → SaysClaimedIf e t
      → SaysClaimedIf e (if b then r else t)
  chosen_says_if true r t h k = h
  chosen_says_if false r t h k = k

  ratio_says : (one : ℕ) (ratio found : Option ℤ) → SaysClaimed e (check_ratio one ratio found e)
  unfolding check_ratio
  ratio_says one none found = accepted_says score_valid
  ratio_says one (some r) none = rejected_says ratio_not_supported
  ratio_says one (some r) (some f) =
      chosen_says _ _ _ (accepted_says score_valid) (rejected_says ratio_out_of_range)

  score_says :
      (one age : ℕ) (score : ℤ) (found ratio found_ratio : Option ℤ)
      → SaysClaimedIf e (check_found one age score found ratio found_ratio e)
  unfolding check_found
  score_says one age score none ratio found_ratio = tt
  score_says one age score (some f) ratio found_ratio =
      chosen_says_if (is_extreme_score score f age) (some (rejected score_unrealistic e))
        (some (check_ratio one ratio found_ratio e)) (rejected_says score_unrealistic)
        (ratio_says one ratio found_ratio)

  scored_says :
      (one now : ℕ) (s a : RedditContent) (score : Option ℤ)
      → SaysClaimedIf e (scored one now s a e score)
  unfolding scored check_score
  scored_says one now s a none = accepted_says score_skipped
  scored_says one now s a (some score) =
      chosen_says_if
        (ltb_ℤ (pos (calculate_max_reasonable_score s.data_type (now - s.created_at))) score)
        (some (rejected score_too_high e))
        (check_found one (now - s.created_at) score a.score s.upvote_ratio a.upvote_ratio e)
        (rejected_says score_too_high)
        (score_says one (now - s.created_at) score a.score s.upvote_ratio a.upvote_ratio)

  comment_ratio_says :
      (score : Option ℤ) (comments : ℕ)
      → SaysClaimed e (validate_comment_score_ratio score comments e)
  unfolding validate_comment_score_ratio accepted rejected
  comment_ratio_says none comments = refl
  comment_ratio_says (some score) comments = ground arith

  -- A refusal of the check of the comments says the claimed size; a penalty is no refusal.
  between_says :
      (comments least most found : ℕ) (ratio : ValidationResult Reason)
      → SaysClaimed e ratio
      → (check_between comments least most found ratio e).is_valid ≡ false
      → SaysClaimed e (check_between comments least most found ratio e)
  unfolding check_between accepted rejected
  between_says comments least most found ratio h k = ground arith

  -- A refusal says the claimed size.
  abbrev RefusalSays : Option (ValidationResult Reason) → Type 0
  RefusalSays none = Unit
  RefusalSays (some r) = r.is_valid ≡ false → SaysClaimed e r

  refusal_of : (o : Option (ValidationResult Reason)) → SaysClaimedIf e o → RefusalSays o
  refusal_of none h = tt
  refusal_of (some r) h = λ _. h

  refusal_if :
      (b : Bool) (r t : Option (ValidationResult Reason))
      → RefusalSays r
      → RefusalSays t
      → RefusalSays (if b then r else t)
  refusal_if true r t h k = h
  refusal_if false r t h k = k

  found_says :
      (comments score_part age : ℕ) (score found : Option ℤ)
      → RefusalSays (check_found_comments comments score_part age score found e)
  unfolding check_found_comments check_bounds
  found_says comments score_part age score none = tt
  found_says comments score_part age score (some f) =
      let bounds =
        comment_bounds (pos_part f)
          (calculate_comment_count_tolerance score_part (pos_part f) age) in
      between_says comments bounds.0 bounds.1 (pos_part f)
        (validate_comment_score_ratio score comments e) (comment_ratio_says score comments)

  comments_say :
      (now : ℕ) (s a : RedditContent) (comments : ℤ)
      → RefusalSays (check_comments now s a e comments)
  unfolding check_comments
  comments_say now s a (negsuc n) = λ _. rejected_says comments_negative
  comments_say now s a (pos comments) =
      let age = now - s.created_at in
      let score = positive_score s.score in
      refusal_if (ltb (calculate_max_reasonable_comment_count score age) comments)
        (some (rejected comments_too_many e))
        (check_found_comments comments score age s.score a.num_comments e)
        (λ _. rejected_says comments_too_many)
        (found_says comments score age s.score a.num_comments)

  counted_says :
      (now : ℕ) (s a : RedditContent) (comments : Option ℤ)
      → RefusalSays (counted now s a e comments)
  unfolding counted
  counted_says now s a none = λ _. accepted_says comments_skipped
  counted_says now s a (some comments) =
      refusal_if (not (is_post s.data_type)) (some (rejected comments_not_supported e))
        (check_comments now s a e comments) (λ _. rejected_says comments_not_supported)
        (comments_say now s a comments)

  both_say :
      (score comments : Option (ValidationResult Reason))
      → SaysClaimedIf e score
      → RefusalSays comments
      → SaysClaimedIf e (both score comments e)
  unfolding both kept accepted
  both_say none comments h k = tt
  both_say (some r) none h k = ground arith
  both_say (some r) (some c) h k = ground (arith, k)

  media_says :
      (sort : List String → List String) (required now : ℕ) (s a : RedditContent)
      → SaysClaimed e (validate_media_content sort required now s a e)
  unfolding validate_media_content check_media accepted rejected
  media_says sort required now s a = ground arith

  nsfw_says : (s a : RedditContent) → SaysClaimed e (validate_nsfw_content s a e)
  unfolding validate_nsfw_content check_nsfw accepted rejected
  nsfw_says s a = ground arith

  after_says :
      (sort : List String → List String) (required now : ℕ) (s a : RedditContent)
      (o : Option (ValidationResult Reason))
      → SaysClaimedIf e o
      → SaysClaimedIf e (
          Option.map
            (λ (r : ValidationResult Reason).
              with_nsfw s a e (with_media sort required now s a e r))
            o)
  unfolding with_nsfw with_media
  after_says sort required now s a none h = tt
  after_says sort required now s a (some r) h =
      let media = validate_media_content sort required now s a e in
      let second = if r.is_valid && not media.is_valid then media else r in
      let nsfw = validate_nsfw_content s a e in
      chosen_says (second.is_valid && not nsfw.is_valid) nsfw second (nsfw_says s a) (
        chosen_says (r.is_valid && not media.is_valid) media r (media_says sort required now s a) h)

module _ (lower : String → String) (first : ℕ → String → String) (encode : RedditContent → List ℕ)
    (decode : List ℕ → Option RedditContent) (sort : List String → List String)
    (one required now : ℕ) where
  decoded_says :
      (a : RedditContent) (e : DataEntity) (o : Option RedditContent)
      → SaysClaimedIf e (check_decoded lower first encode one now a e o)
  unfolding check_decoded check_numbers validate_score_content validate_comment_count
  decoded_says a e none = rejected_says e not_decoded
  decoded_says a e (some s) = refused_says (check_content lower first encode s a e)
    where
      refused_says :
          (o : Option Reason) → SaysClaimedIf e (refused o e (check_numbers one now s a e))
      refused_says none =
          both_say e (validate_score_content one now s a e) (validate_comment_count now s a e)
            (scored_says e one now s a s.score) (counted_says e now s a s.num_comments)
      refused_says (some reason) = rejected_says e reason

  submitted_says :
      (e : DataEntity) (found : Unit {0} ⊎ Option RedditContent) (o : Option RedditContent)
      → SaysClaimedIf e (check_submitted lower first encode decode sort one required now e found o)
  unfolding check_submitted check_retrieved validate_reddit_content
  submitted_says e found none = rejected_says e not_decoded
  submitted_says e (inl failed) (some s) = rejected_says e not_retrieved
  submitted_says e (inr none) (some s) = rejected_says e not_found
  submitted_says e (inr (some a)) (some s) =
      after_says e sort required now s a
        (check_decoded lower first encode one now a e (decode e.content))
        (decoded_says a e (decode e.content))

  -- Whatever was found, and whatever the checks say, a result that is returned says that the size which the entity claims
  -- was validated: the smaller size that the check of the comments computes as a penalty is dropped.
  pub validate_entity-content_size_bytes_validated :
      (is_url : String → Bool) (found : Unit {0} ⊎ Option RedditContent) (e : DataEntity)
      → SaysClaimedIf e
          (validate_entity lower first encode decode sort one required now is_url found e)
  unfolding validate_entity
  validate_entity-content_size_bytes_validated is_url found e =
      chosen_says_if e (not (is_url e.uri)) (some (rejected not_reddit_url e))
        (check_submitted lower first encode decode sort one required now e found (decode e.content))
        (rejected_says e not_reddit_url) (submitted_says e found (decode e.content))
