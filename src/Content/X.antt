-- ===== src/Content/X.antt =====
-- scraping/x/model.py and scraping/x/utils.py: the checks of a tweet. A required field is never None, as the model of the
-- content has it. The functions of Python's `str`, the coding as JSON, and `math` are parameters.
pub mod Check
pub mod Laws
use Prim.Native.String.{len, slice}
use custom_scraper.Content.{has_media, media_of, obfuscate_datetime_to_minute, text_list_same}
use custom_scraper.Content.Counts.{
  Problem, check_increasing, check_percentage, engagement_tolerance, negative,
}
use custom_scraper.Prelude.{
  Bool, List, Option, String, [], false, if◌then◌else◌, is_some, leb, length, max, member, none,
  not, option_key, option_same, some, string_key, true, ℕ, ◌&&◌, ◌*◌, ◌-◌, ◌/◌, ◌==◌, ◌||◌, ◌∷◌,
}
use custom_scraper.Prelude.Dict.{Dict, lookup}
use custom_scraper.Prelude.Iff.{first_problem}
use custom_scraper.Prelude.Int.{negsuc, pos, ℤ}
use custom_scraper.Ratio.{Ratio}
use text.Mathlib.Text.{find?, starts_with}

pub data OptionalField : Type 0 where
  user_id user_display_name user_verified tweet_id is_reply : OptionalField
  is_quote conversation_id in_reply_to_user_id language : OptionalField
  in_reply_to_username quoted_tweet_id user_blue_verified : OptionalField
  user_description user_location profile_image_url cover_picture_url : OptionalField

pub data CountField : Type 0 where
  like_count retweet_count reply_count quote_count : CountField
  view_count bookmark_count : CountField
  user_followers_count user_following_count : CountField

-- `XContent`, with its optional fields and its counts by their names; a flag is the text of its value.
pub record XContent : Type 0 where
  pub model_config : Option (Dict String String)
  pub username : String
  pub text : String
  pub url : String
  pub timestamp : ℕ
  pub tweet_hashtags : List String
  pub media : Option (List String)
  pub optional : OptionalField → Option String
  pub counts : CountField → Option ℤ

pub data Reason : Type 0 where
  undecoded retweet : Reason
  username_differs text_differs url_differs hashtags_differ : Reason
  optional_differs : OptionalField → Reason
  not_obfuscated timestamp_differs twitter_url : Reason
  media_missing media_fake media_differs : Reason
  model_config_invalid : Reason
  count_invalid : CountField → Problem → Reason
  bytes_too_big fields_incorrect good_job : Reason

abbrev pub optional_fields : List OptionalField
optional_fields =
    user_id ∷ user_display_name ∷ user_verified ∷ tweet_id ∷ is_reply ∷ is_quote ∷ conversation_id
    ∷ in_reply_to_user_id ∷ language ∷ in_reply_to_username ∷ quoted_tweet_id ∷ user_blue_verified
    ∷ user_description ∷ user_location ∷ profile_image_url ∷ cover_picture_url ∷ []

-- `INCREASING_ONLY_FIELDS + BI_DIRECTIONAL_FIELDS`
abbrev pub dynamic_fields : List CountField
dynamic_fields =
    like_count ∷ retweet_count ∷ reply_count ∷ quote_count ∷ view_count ∷ bookmark_count
    ∷ user_followers_count ∷ user_following_count ∷ []

-- `s in t`
unfoldable pub contains : String → String → Bool
contains t s = is_some (find? t s)

-- `normalize_url`; `replaced` is `url.replace("twitter.com/", "x.com/")`, `deadline` is `NO_TWITTER_URLS_DATE`.
unfoldable pub normalize_url : (String → String) → ℕ → ℕ → String → String
normalize_url replaced deadline now url = if leb deadline now then url else replaced url

unfoldable pub remove_at_sign_from_username : String → String
remove_at_sign_from_username username =
    if starts_with username "@" then slice username 1 (len username) else username

unfoldable pub are_all_in : List String → List String → Bool
are_all_in [] actual = true
are_all_in (h ∷ hs) actual = member h actual && are_all_in hs actual

unfoldable pub are_hashtags_valid : List String → List String → Bool
unfolding are_all_in
are_hashtags_valid hashtags actual =
    are_all_in hashtags actual && leb (2 * length hashtags) (5 * length actual)

-- The loop over the required fields.
unfoldable pub check_required :
    (String → String) → ℕ → ℕ → (submitted actual : XContent) → Option Reason
unfolding remove_at_sign_from_username normalize_url are_hashtags_valid
check_required replaced deadline now submitted actual =
    if not (
      string_key.same (remove_at_sign_from_username submitted.username)
        (remove_at_sign_from_username actual.username))
    then some username_differs
    else if not (string_key.same submitted.text actual.text)
    then some text_differs
    else if not (
        string_key.same (normalize_url replaced deadline now submitted.url)
          (normalize_url replaced deadline now actual.url))
    then some url_differs
    else if not (are_hashtags_valid submitted.tweet_hashtags actual.tweet_hashtags)
    then some hashtags_differ
    else none

-- An optional field is compared where both contents have it.
unfoldable pub optional_matches : Option String → Option String → Bool
optional_matches none actual = true
optional_matches (some s) none = true
optional_matches (some s) (some a) = string_key.same s a

-- The loop over the optional fields.
unfoldable pub check_optional : List OptionalField → (submitted actual : XContent) → Option Reason
unfolding optional_matches
check_optional [] submitted actual = none
check_optional (f ∷ fs) submitted actual =
    if not (optional_matches (submitted.optional f) (actual.optional f))
    then some (optional_differs f)
    else check_optional fs submitted actual

unfoldable pub validate_tweet_fields :
    (String → String) → ℕ → ℕ → (submitted actual : XContent) → Option Reason
unfolding check_required check_optional
validate_tweet_fields replaced deadline now submitted actual =
    first_problem (check_required replaced deadline now submitted actual)
      (check_optional optional_fields submitted actual)

unfoldable pub validate_timestamp : (submitted actual : XContent) → Option Reason
validate_timestamp submitted actual =
    if not (submitted.timestamp == obfuscate_datetime_to_minute actual.timestamp)
    then (if submitted.timestamp == actual.timestamp
        then some not_obfuscated
        else some timestamp_differs)
    else none

unfoldable pub validate_twitter_url_deadline : ℕ → ℕ → (submitted actual : XContent) → Option Reason
unfolding contains
validate_twitter_url_deadline deadline now submitted actual =
    if leb deadline now
      && (contains submitted.url "twitter.com" || contains actual.url "twitter.com")
    then some twitter_url
    else none

-- `validate_media_content`; `sort` is `sorted` on texts.
unfoldable pub validate_media_content :
    (List String → List String) → (media found : Option (List String)) → Option Reason
validate_media_content sort media found =
    if has_media found && not (has_media media)
    then some media_missing
    else if has_media media && not (has_media found)
    then some media_fake
    else if has_media media && not (text_list_same (sort (media_of found)) (sort (media_of media)))
    then some media_differs
    else none

unfoldable pub validate_model_config : Option (Dict String String) → Bool
validate_model_config none = true
validate_model_config (some d) = length d == 1 && option_same (lookup "extra" d) (some "ignore")

-- The multiplier of a field, in tenths.
unfoldable pub field_multiplier : CountField → ℕ
field_multiplier like_count = 10
field_multiplier retweet_count = 13
field_multiplier reply_count = 15
field_multiplier quote_count = 14
field_multiplier view_count = 30
field_multiplier bookmark_count = 8
field_multiplier user_followers_count = 20
field_multiplier user_following_count = 15

-- `field_name in BI_DIRECTIONAL_FIELDS`
unfoldable pub is_bidirectional : CountField → Bool
is_bidirectional user_followers_count = true
is_bidirectional user_following_count = true
is_bidirectional _ = false

-- `max(int(submitted_value * 0.05), 20)`
unfoldable pub small_tolerance : ℕ → ℕ
small_tolerance submitted = max (submitted * 5 / 100) 20

unfoldable pub named : CountField → Option Problem → Option Reason
named field none = none
named field (some problem) = some (count_invalid field problem)

module _ (log10 : ℕ → Ratio) (root : ℕ → ℕ) where
  unfoldable pub validate_engagement_field : CountField → ℕ → Option ℤ → ℤ → Option Problem
  unfolding field_multiplier is_bidirectional small_tolerance
  validate_engagement_field field age actual (negsuc n) = some negative
  validate_engagement_field field age actual (pos submitted) =
      if is_bidirectional field
      then check_percentage log10 root submitted age actual
      else check_increasing submitted (small_tolerance submitted)
          (engagement_tolerance (field_multiplier field) submitted age) actual

  -- A field that was not submitted is passed over.
  unfoldable pub check_count : CountField → ℕ → Option ℤ → Option ℤ → Option Problem
  unfolding validate_engagement_field
  check_count field age actual none = none
  check_count field age actual (some submitted) =
      validate_engagement_field field age actual submitted

  -- The loop of `validate_engagement_metrics`, for an age.
  unfoldable pub check_counts : List CountField → ℕ → (submitted actual : XContent) → Option Reason
  unfolding check_count named
  check_counts [] age submitted actual = none
  check_counts (f ∷ fs) age submitted actual =
      first_problem (named f (check_count f age (actual.counts f) (submitted.counts f)))
        (check_counts fs age submitted actual)

  unfoldable pub validate_engagement_metrics : ℕ → (submitted actual : XContent) → Option Reason
  unfolding check_counts
  validate_engagement_metrics now submitted actual =
      check_counts dynamic_fields (now - submitted.timestamp) submitted actual
