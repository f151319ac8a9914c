-- ===== src/Content/Reddit/Check/Accepted.antt =====
-- Which entities of Reddit are accepted, and what their results say.
use custom_scraper.Content.{
  DataEntity, ValidationResult, accepted, has_media, media_of, passes, passes-refused,
  passes_unless, rejected, text_list_same_iff,
}
use custom_scraper.Content.Reddit.{
  Reason, RedditContent, check_media, check_nsfw, is_set, not_reddit_url, validate_media_content,
  validate_nsfw_content,
}
use custom_scraper.Content.Reddit.Check.{
  both, check_content, check_decoded, check_numbers, check_retrieved, check_submitted, kept,
  validate_entity, validate_reddit_content, with_media, with_nsfw,
}
use custom_scraper.Content.Reddit.Check.Laws.{ContentFits, check_content_lem}
use custom_scraper.Content.Reddit.Comments.{validate_comment_count}
use custom_scraper.Content.Reddit.Comments.Laws.{CommentsFit, validate_comment_count_lem}
use custom_scraper.Content.Reddit.Scores.{validate_score_content}
use custom_scraper.Content.Reddit.Scores.Laws.{ScoreFits, validate_score_content_lem}
use custom_scraper.Prelude.{
  Bool, List, Option, String, [], arith, false, inl, inr, none, refl, some, string_key, sym, true,
  ℕ, ◌↔◌, ◌∙◌, ◌∷◌, ◌≡◌, ◌≤◌, ◌⊎◌,
}
use custom_scraper.Prelude.Iff.{iff_both, iff_refl, iff_trans}
use mathlib.Core.Option.{some-injective}
use mathlib.Core.Path.{subst}
use mathlib.Core.Sum.{inr-injective}
use mathlib.Core.Option

-- No media were submitted; or an empty list, before the date or for content without any; or those that were found.
abbrev pub MediaFits :
    (List String → List String) → ℕ → ℕ → Option (List String) → Option (List String) → Type 0
MediaFits sort required now none found = Unit
MediaFits sort required now (some []) found = required ≤ now → has_media found ≡ false
MediaFits sort required now (some (u ∷ us)) found =
    (has_media found ≡ true) × (sort (media_of found) ≡ sort (u ∷ us))

-- The mark was not submitted; or it is the one that was found, and with it there are no media, submitted or found.
abbrev pub NsfwFits : Option Bool → Bool → Bool → Bool → Type 0
NsfwFits none found media found_media = Unit
NsfwFits (some marked) found media found_media =
    (marked ≡ found) × (marked ≡ true → (media ≡ false) × (found_media ≡ false))

module _ (e : DataEntity) where
  check_media_lem :
      (sort : List String → List String) (required now : ℕ) (media found : Option (List String))
      → ((check_media sort required now media found e).is_valid ≡ true)
        ↔ MediaFits sort required now media found
  unfolding check_media has_media media_of accepted rejected
  check_media_lem sort required now none found = (λ h. tt, λ h. refl)
  check_media_lem sort required now (some []) found = (λ h k. ground arith, λ h. ground (arith, h))
  check_media_lem sort required now (some (u ∷ us)) found =
      let same = text_list_same_iff (sort (media_of found)) (sort (u ∷ us)) in
      (λ h. ground (arith, same), λ h. ground (arith, same))

  check_nsfw_lem :
      (marked found : Option Bool) (media found_media : Bool)
      → ((check_nsfw marked found media found_media e).is_valid ≡ true)
        ↔ NsfwFits marked (is_set found) media found_media
  unfolding check_nsfw is_set accepted rejected
  check_nsfw_lem none found media found_media = (λ h. tt, λ h. refl)
  check_nsfw_lem (some marked) found media found_media = (λ h. ground arith, λ h. ground arith)

  media_lem :
      (sort : List String → List String) (required now : ℕ) (s a : RedditContent)
      → ((validate_media_content sort required now s a e).is_valid ≡ true)
        ↔ MediaFits sort required now s.media a.media
  unfolding validate_media_content
  media_lem sort required now s a = check_media_lem sort required now s.media a.media

  nsfw_lem :
      (s a : RedditContent)
      → ((validate_nsfw_content s a e).is_valid ≡ true)
        ↔ NsfwFits s.is_nsfw (is_set a.is_nsfw) (has_media s.media) (has_media a.media)
  unfolding validate_nsfw_content
  nsfw_lem s a = check_nsfw_lem s.is_nsfw a.is_nsfw (has_media s.media) (has_media a.media)

-- The second check is made, and its refusal kept, if the first passes.
both_lem :
    (score comments : Option (ValidationResult Reason)) (e : DataEntity)
    → (passes (both score comments e) ≡ true) ↔ ((passes score ≡ true) × (passes comments ≡ true))
unfolding both kept accepted
both_lem none comments e = (λ h. cc, λ h. cc (h.0))
both_lem (some r) none e = (λ h. ground arith, λ h. cc (h.1))
both_lem (some r) (some c) e = (λ h. ground arith, λ h. ground arith)

numbers_lem :
    (one now : ℕ) (s a : RedditContent) (e : DataEntity)
    → (passes (check_numbers one now s a e) ≡ true)
      ↔ (ScoreFits one now s a s.score × CommentsFit now s a s.num_comments)
unfolding check_numbers
numbers_lem one now s a e =
    iff_trans (both_lem (validate_score_content one now s a e) (validate_comment_count now s a e) e)
      (iff_both (validate_score_content_lem one now s a e) (validate_comment_count_lem now s a e))

-- The checks of media and of the mark follow one that passes.
with_lem :
    (sort : List String → List String) (required now : ℕ) (s a : RedditContent) (e : DataEntity)
    (o : Option (ValidationResult Reason))
    → (passes (
          Option.map
            (λ (r : ValidationResult Reason).
              with_nsfw s a e (with_media sort required now s a e r))
            o)
        ≡ true)
      ↔ ((passes o ≡ true)
          × (((validate_media_content sort required now s a e).is_valid ≡ true)
              × ((validate_nsfw_content s a e).is_valid ≡ true)))
unfolding with_nsfw with_media
with_lem sort required now s a e none = (λ h. cc, λ h. cc (h.0))
with_lem sort required now s a e (some r) = (λ h. ground arith, λ h. ground arith)

module _ (lower : String → String) (first : ℕ → String → String)
    (encode : RedditContent → List ℕ) where
  -- What is submitted agrees with what was found, up to the number of comments.
  abbrev pub Agrees : ℕ → ℕ → RedditContent → RedditContent → DataEntity → Type 0
  Agrees one now s a e =
      ContentFits lower first encode s a e
      × (ScoreFits one now s a s.score × CommentsFit now s a s.num_comments)

  check_decoded_lem :
      (one now : ℕ) (a : RedditContent) (e : DataEntity) (o : Option RedditContent)
      → (passes (check_decoded lower first encode one now a e o) ≡ true)
        ↔ ((s : RedditContent) × ((o ≡ some s) × Agrees one now s a e))
  unfolding check_decoded rejected
  check_decoded_lem one now a e none = (λ h. cc, λ h. cc (h.1.0))
  check_decoded_lem one now a e (some s) =
      let (to, from) =
        iff_trans
          (passes-refused (check_content lower first encode s a e) e (check_numbers one now s a e))
          (iff_both (check_content_lem lower first encode s a e) (numbers_lem one now s a e)) in
      (
        λ h. (s, (refl, to h)),
        λ (s', (same, fits)). from (
            subst (λ (t : RedditContent). Agrees one now t a e) (sym (some-injective s s' same))
              fits),
      )

  -- What is submitted agrees with what was found in the media and the mark too.
  abbrev pub AgreesInAll :
      (List String → List String) → ℕ → ℕ → ℕ → RedditContent → RedditContent → DataEntity → Type 0
  AgreesInAll sort one required now s a e =
      Agrees one now s a e
      × (MediaFits sort required now s.media a.media
          × NsfwFits s.is_nsfw (is_set a.is_nsfw) (has_media s.media) (has_media a.media))

  module _ (decode : List ℕ → Option RedditContent) (sort : List String → List String)
      (one required now : ℕ) where
    validate_reddit_content_lem :
        (s a : RedditContent) (e : DataEntity)
        → decode e.content ≡ some s
        → (passes (validate_reddit_content lower first encode decode one now a e) ≡ true)
          ↔ Agrees one now s a e
    unfolding validate_reddit_content
    validate_reddit_content_lem s a e same =
        let (to, from) = check_decoded_lem one now a e (decode e.content) in
        (
          λ h.
              let (t, (found, fits)) = to h in
              subst (λ (t : RedditContent). Agrees one now t a e)
                (some-injective t s (sym found ∙ same)) fits,
          λ fits. from (s, (same, fits)),
        )

    retrieved_lem :
        (s : RedditContent) (e : DataEntity) (found : Unit {0} ⊎ Option RedditContent)
        → decode e.content ≡ some s
        → (passes (check_retrieved lower first encode decode sort one required now s e found)
            ≡ true)
          ↔ ((a : RedditContent) × ((found ≡ inr (some a))
                × AgreesInAll sort one required now s a e))
    unfolding check_retrieved rejected
    retrieved_lem s e (inl failed) same = (λ h. cc, λ h. cc (h.1.0))
    retrieved_lem s e (inr none) same = (λ h. cc, λ h. cc (h.1.0))
    retrieved_lem s e (inr (some a)) same =
        let (to, from) =
          iff_trans
            (with_lem sort required now s a e
              (validate_reddit_content lower first encode decode one now a e))
            (iff_both (validate_reddit_content_lem s a e same)
              (iff_both (media_lem e sort required now s a) (nsfw_lem e s a))) in
        (
          λ h. (a, (refl, to h)),
          λ (b, (there, fits)). from (
              subst (λ (b : RedditContent). AgreesInAll sort one required now s b e)
                (sym (some-injective a b (inr-injective (some a) (some b) there))) fits),
        )

    submitted_lem :
        (e : DataEntity) (found : Unit {0} ⊎ Option RedditContent) (o : Option RedditContent)
        → decode e.content ≡ o
        → (passes (check_submitted lower first encode decode sort one required now e found o)
            ≡ true)
          ↔ ((s : RedditContent) × (a : RedditContent) × ((o ≡ some s)
                × (found ≡ inr (some a))
                × AgreesInAll sort one required now s a e))
    unfolding check_submitted rejected
    submitted_lem e found none same = (λ h. cc, λ h. cc (h.2.0))
    submitted_lem e found (some s) same =
        let (to, from) = retrieved_lem s e found same in
        (
          λ h. let (a, (there, fits)) = to h in (s, a, (refl, there, fits)),
          λ (t, a, (it, there, fits)). from (
            a,
            (
              there,
              subst (λ (t : RedditContent). AgreesInAll sort one required now t a e)
                  (sym (some-injective s t it)) fits,
            ),
          ),
        )

    -- An entity is accepted exactly if its address is one of Reddit, its content can be decoded and something was found,
    -- to which the content agrees: the same texts, kind and title, the instant cut to the minute, a parent that fits, and
    -- an entity of the same fields that claims no more bytes; a score, a ratio and a number of comments that fit; and
    -- media and a mark that fit.
    pub validate_entity_lem :
        (is_url : String → Bool) (found : Unit {0} ⊎ Option RedditContent) (e : DataEntity)
        → (passes (validate_entity lower first encode decode sort one required now is_url found e)
            ≡ true)
          ↔ ((is_url e.uri ≡ true)
              × ((s : RedditContent) × (a : RedditContent) × ((decode e.content ≡ some s)
                    × (found ≡ inr (some a))
                    × AgreesInAll sort one required now s a e)))
    unfolding validate_entity
    validate_entity_lem is_url found e =
        iff_trans
          (passes_unless (is_url e.uri) not_reddit_url e (
            check_submitted lower first encode decode sort one required now e found
              (decode e.content)))
          (iff_both (iff_refl _) (submitted_lem e found (decode e.content) refl))
