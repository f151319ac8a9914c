-- ===== src/Content/X/Check/Laws.antt =====
-- Which tweets are accepted.
use custom_scraper.Content.{
  DataEntity, SameFields, accepted, are_non_content_fields_equal_lem, obfuscate_datetime_to_minute,
  passes, passes_if, passes-refused, refused, rejected,
}
use custom_scraper.Content.X.{
  XContent, check_counts, check_optional, check_required, dynamic_fields, model_config_invalid,
  optional_fields, retweet, validate_engagement_metrics, validate_media_content,
  validate_model_config, validate_timestamp, validate_tweet_fields, validate_twitter_url_deadline,
}
use custom_scraper.Content.X.Check.{
  check_decoded, check_tweet, normalized, to_data_entity, validate_data_entity_fields,
  validate_tweet_content,
}
use custom_scraper.Content.X.Laws.{
  CountFits, HostFits, MediaFits, RequiredFit, SameIfBoth, counts_lem, deadline_lem, media_lem,
  optional_lem, required_lem, timestamp_lem,
}
use custom_scraper.Prelude.{
  All, Bool, List, Option, String, arith, false, if◌then◌else◌, none, not, refl, some, string_key,
  sym, true, ℕ, ◌-◌, ◌↔◌, ◌≡◌, ◌≤◌,
}
use custom_scraper.Prelude.Iff.{
  first_problem, first_problem_iff, iff_both, iff_refl, iff_trans, unless_iff,
}
use custom_scraper.Ratio.{Ratio}
use mathlib.Core.Option.{some-injective}
use mathlib.Core.Path.{subst}

module _ (replaced : String → String) (sort : List String → List String) (log10 : ℕ → Ratio)
    (root : ℕ → ℕ) (deadline now : ℕ) where
  -- What a tweet that was submitted has to meet against the one that was found.
  abbrev pub TweetFits : XContent → XContent → Type 0
  TweetFits s a =
      (RequiredFit replaced deadline now s a
        × All (λ f. SameIfBoth (s.optional f) (a.optional f)) optional_fields)
      × ((s.timestamp ≡ obfuscate_datetime_to_minute a.timestamp)
          × (HostFits deadline now s a
              × (MediaFits sort s.media a.media
                  × ((validate_model_config s.model_config ≡ true)
                      × All
                          (λ f.
                            CountFits log10 root f (now - s.timestamp) (a.counts f) (s.counts f))
                          dynamic_fields))))

  tweet_lem :
      (s a : XContent)
      → (check_tweet replaced sort log10 root deadline now s a ≡ none) ↔ TweetFits s a
  unfolding check_tweet validate_tweet_fields validate_engagement_metrics
  tweet_lem s a =
      let counts = check_counts log10 root dynamic_fields (now - s.timestamp) s a in
      let last =
        if not (validate_model_config s.model_config) then some model_config_invalid else counts in
      let media = validate_media_content sort s.media a.media in
      let host = validate_twitter_url_deadline deadline now s a in
      iff_trans
        (first_problem_iff (validate_tweet_fields replaced deadline now s a)
          (first_problem (validate_timestamp s a) (first_problem host (first_problem media last))))
        (iff_both
          (iff_trans
            (first_problem_iff (check_required replaced deadline now s a)
              (check_optional optional_fields s a))
            (iff_both (required_lem replaced deadline now s a) (optional_lem optional_fields s a)))
          (iff_trans
            (first_problem_iff (validate_timestamp s a)
              (first_problem host (first_problem media last)))
            (iff_both (timestamp_lem s a) (
              iff_trans (first_problem_iff host (first_problem media last)) (
                iff_both (deadline_lem deadline now s a) (
                  iff_trans (first_problem_iff media last) (
                    iff_both (media_lem sort s.media a.media) (
                      iff_trans
                        (unless_iff (validate_model_config s.model_config) model_config_invalid
                          counts)
                        (iff_both (iff_refl _)
                          (counts_lem log10 root dynamic_fields (now - s.timestamp) s a))))))))))

  -- The entity has the fields of the tweet's, with the addresses in normal form, and claims no more bytes.
  abbrev pub EntityFits : Option DataEntity → DataEntity → Type 0
  EntityFits none e = ⊥
  EntityFits (some tweet) e =
      (e.content_size_bytes ≤ tweet.content_size_bytes)
      × SameFields (normalized replaced deadline now tweet) (normalized replaced deadline now e)

  entity_lem :
      (tweet : Option DataEntity) (e : DataEntity)
      → (passes (validate_data_entity_fields replaced deadline now tweet e) ≡ true)
        ↔ EntityFits tweet e
  unfolding validate_data_entity_fields accepted rejected
  entity_lem none e = (λ h. cc, λ h. elim h [ ])
  entity_lem (some t) e =
      let same =
        are_non_content_fields_equal_lem (normalized replaced deadline now t)
          (normalized replaced deadline now e) in
      (λ h. ground (arith, same), λ h. ground (arith, same))

  module _ (lower : String → String) (first : ℕ → String → String)
      (encode : XContent → List ℕ) where
    decoded_lem :
        (a : XContent) (is_retweet : Bool) (e : DataEntity) (o : Option XContent)
        → (passes (
              check_decoded lower first encode replaced sort log10 root deadline now a is_retweet e
                o)
            ≡ true)
          ↔ ((s : XContent) × ((o ≡ some s)
                × ((is_retweet ≡ false)
                    × (TweetFits s a × EntityFits (to_data_entity lower first encode a) e))))
    unfolding check_decoded rejected
    decoded_lem a is_retweet e none = (λ h. cc, λ h. cc (h.1.0))
    decoded_lem a is_retweet e (some s) =
        let last =
          validate_data_entity_fields replaced deadline now (to_data_entity lower first encode a)
            e in
        let (to, from) =
          iff_trans
            (passes_if is_retweet retweet e
              (refused (check_tweet replaced sort log10 root deadline now s a) e last))
            (iff_both (iff_refl _) (
              iff_trans
                (passes-refused (check_tweet replaced sort log10 root deadline now s a) e last)
                (iff_both (tweet_lem s a) (entity_lem (to_data_entity lower first encode a) e)))) in
        (
          λ h. (s, (refl, to h)),
          λ (t, (same, (fresh, (fits, rest)))). from (
            fresh,
            (subst (λ (t : XContent). TweetFits t a) (sym (some-injective s t same)) fits, rest),
          ),
        )

    -- A tweet is accepted exactly if it can be decoded and is no retweet; its required fields fit, and its optional ones
    -- where both contents have them; its instant is the one found, cut to the minute; no address names the old host from
    -- the deadline on; its media are the same once sorted; it hides nothing in `model_config`; none of its counts is
    -- negative, one that only increases exceeds the one found by at most five percent or 20, and the others are near to
    -- the ones found; and the entity has the fields of the tweet found and claims no more bytes.
    pub validate_tweet_content_lem :
        (decode : DataEntity → Option XContent) (a : XContent) (e : DataEntity) (is_retweet : Bool)
        → (passes (
              validate_tweet_content lower first encode replaced sort log10 root deadline now decode
                a e is_retweet)
            ≡ true)
          ↔ ((s : XContent) × ((decode e ≡ some s)
                × ((is_retweet ≡ false)
                    × (TweetFits s a × EntityFits (to_data_entity lower first encode a) e))))
    unfolding validate_tweet_content
    validate_tweet_content_lem decode a e is_retweet = decoded_lem a is_retweet e (decode e)
