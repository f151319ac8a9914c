-- ===== src/Content/X/Laws.antt =====
-- Which tweets pass each of the checks.
use custom_scraper.Content.{has_media, media_of, obfuscate_datetime_to_minute, text_list_same_iff}
use custom_scraper.Content.Counts.{
  Problem, check_increasing, check_percentage, engagement_tolerance,
}
use custom_scraper.Content.Counts.Laws.{
  IsNear, NotAbove, check_increasing_lem, check_percentage_lem,
}
use custom_scraper.Content.X.{
  CountField, OptionalField, Reason, XContent, are_all_in, are_hashtags_valid, check_count,
  check_counts, check_optional, check_required, contains, field_multiplier, hashtags_differ,
  is_bidirectional, named, normalize_url, optional_differs, optional_matches,
  remove_at_sign_from_username, small_tolerance, text_differs, url_differs, username_differs,
  validate_engagement_field, validate_media_content, validate_timestamp,
  validate_twitter_url_deadline,
}
use custom_scraper.Prelude.{
  All, Bool, List, Option, String, [], arith, false, if◌then◌else◌, length, member, none, not, refl,
  some, string_key, true, ℕ, ◌*◌, ◌↔◌, ◌∷◌, ◌≡◌, ◌≤◌,
}
use custom_scraper.Prelude.Iff.{first_problem_iff, iff_both, iff_trans, unless_iff}
use custom_scraper.Prelude.Int.{negsuc, pos, ℤ}
use custom_scraper.Ratio.{Ratio}

pub text_iff :
    (t u : String) (reason : Reason) {rest : Option Reason} {P : Type 0}
    → ((rest ≡ none) ↔ P)
    → ((if not (string_key.same t u) then some reason else rest) ≡ none) ↔ ((t ≡ u) × P)
text_iff t u reason {rest} h =
    iff_trans (unless_iff (string_key.same t u) reason rest) (iff_both (string_key.same_iff t u) h)

-- Every hashtag is one of the tweet's, and they are at most two and a half times as many.
abbrev pub HashtagsFit : List String → List String → Type 0
HashtagsFit hashtags actual =
    All (λ h. member h actual ≡ true) hashtags × (2 * length hashtags ≤ 5 * length actual)

pub all_in_lem :
    (hs actual : List String) → (are_all_in hs actual ≡ true) ↔ All (λ h. member h actual ≡ true) hs
unfolding are_all_in
all_in_lem [] actual = (λ h. tt, λ h. refl)
all_in_lem (h ∷ hs) actual =
    let (to, from) = all_in_lem hs actual in (λ k. ground (arith, to), λ k. ground (arith, from))

pub hashtags_lem :
    (hs actual : List String) → (are_hashtags_valid hs actual ≡ true) ↔ HashtagsFit hs actual
unfolding are_hashtags_valid
hashtags_lem hs actual =
    let (to, from) = all_in_lem hs actual in (λ k. ground (arith, to), λ k. ground (arith, from))

-- The user, the text, the address and the hashtags fit.
abbrev pub RequiredFit : (String → String) → ℕ → ℕ → XContent → XContent → Type 0
RequiredFit replaced deadline now s a =
    (remove_at_sign_from_username s.username ≡ remove_at_sign_from_username a.username)
    × ((s.text ≡ a.text)
        × ((normalize_url replaced deadline now s.url ≡ normalize_url replaced deadline now a.url)
            × HashtagsFit s.tweet_hashtags a.tweet_hashtags))

pub last_iff :
    (b : Bool) (reason : Reason) → ((if not b then some reason else none) ≡ none) ↔ (b ≡ true)
last_iff true reason = (λ h. refl, λ h. refl)
last_iff false reason = (λ h. cc, λ h. cc)

pub required_lem :
    (replaced : String → String) (deadline now : ℕ) (s a : XContent)
    → (check_required replaced deadline now s a ≡ none) ↔ RequiredFit replaced deadline now s a
unfolding check_required
required_lem replaced deadline now s a =
    text_iff (remove_at_sign_from_username s.username) (remove_at_sign_from_username a.username)
      username_differs
      (text_iff s.text a.text text_differs (
        text_iff (normalize_url replaced deadline now s.url)
          (normalize_url replaced deadline now a.url) url_differs
          (iff_trans
            (last_iff (are_hashtags_valid s.tweet_hashtags a.tweet_hashtags) hashtags_differ)
            (hashtags_lem s.tweet_hashtags a.tweet_hashtags))))

-- Where both contents have a field, it is the same.
abbrev pub SameIfBoth : Option String → Option String → Type 0
SameIfBoth (some s) (some a) = s ≡ a
SameIfBoth none _ = Unit
SameIfBoth (some s) none = Unit

pub matches_lem : (s a : Option String) → (optional_matches s a ≡ true) ↔ SameIfBoth s a
unfolding optional_matches
matches_lem none none = (λ h. tt, λ h. refl)
matches_lem none (some a) = (λ h. tt, λ h. refl)
matches_lem (some s) none = (λ h. tt, λ h. refl)
matches_lem (some s) (some a) = string_key.same_iff s a

pub optional_lem :
    (fs : List OptionalField) (s a : XContent)
    → (check_optional fs s a ≡ none) ↔ All (λ f. SameIfBoth (s.optional f) (a.optional f)) fs
unfolding check_optional
optional_lem [] s a = (λ h. tt, λ h. refl)
optional_lem (f ∷ fs) s a =
    iff_trans
      (unless_iff (optional_matches (s.optional f) (a.optional f)) (optional_differs f)
        (check_optional fs s a))
      (iff_both (matches_lem (s.optional f) (a.optional f)) (optional_lem fs s a))

pub timestamp_lem :
    (s a : XContent)
    → (validate_timestamp s a ≡ none) ↔ (s.timestamp ≡ obfuscate_datetime_to_minute a.timestamp)
unfolding validate_timestamp
timestamp_lem s a = (λ h. ground arith, λ h. ground arith)

-- From the deadline on, no address names the old host.
abbrev pub HostFits : ℕ → ℕ → XContent → XContent → Type 0
HostFits deadline now s a =
    deadline ≤ now → (contains s.url "twitter.com" ≡ false) × (contains a.url "twitter.com" ≡ false)

pub deadline_lem :
    (deadline now : ℕ) (s a : XContent)
    → (validate_twitter_url_deadline deadline now s a ≡ none) ↔ HostFits deadline now s a
unfolding validate_twitter_url_deadline
deadline_lem deadline now s a = (λ h k. ground arith, λ h. ground (arith, h))

-- Both have media or neither has, and sorted they are the same.
abbrev pub MediaFits :
    (List String → List String) → Option (List String) → Option (List String) → Type 0
MediaFits sort media found =
    (has_media media ≡ has_media found)
    × (has_media media ≡ true → sort (media_of found) ≡ sort (media_of media))

pub media_lem :
    (sort : List String → List String) (media found : Option (List String))
    → (validate_media_content sort media found ≡ none) ↔ MediaFits sort media found
unfolding validate_media_content
media_lem sort media found =
    let same = text_list_same_iff (sort (media_of found)) (sort (media_of media)) in
    (λ h. (ground arith, λ k. ground (arith, same)), λ h. ground (arith, same, h.1))

module _ (log10 : ℕ → Ratio) (root : ℕ → ℕ) where
  -- A count that was submitted is not negative, and it is near to the one that was found, or does not exceed it by more
  -- than five percent or 20.
  abbrev pub CountFits : CountField → ℕ → Option ℤ → Option ℤ → Type 0
  CountFits field age actual none = Unit
  CountFits field age actual (some (negsuc n)) = ⊥
  CountFits field age actual (some (pos n)) =
      if is_bidirectional field
      then IsNear log10 root n age actual
      else NotAbove n (small_tolerance n) actual

  by_kind :
      (bidirectional : Bool) (near above : Option Problem) {P Q : Type 0}
      → ((near ≡ none) ↔ P)
      → ((above ≡ none) ↔ Q)
      → ((if bidirectional then near else above) ≡ none) ↔ (if bidirectional then P else Q)
  by_kind true near above h k = h
  by_kind false near above h k = k

  pub count_lem :
      (field : CountField) (age : ℕ) (actual submitted : Option ℤ)
      → (check_count log10 root field age actual submitted ≡ none)
        ↔ CountFits field age actual submitted
  unfolding check_count validate_engagement_field
  count_lem field age actual none = (λ h. tt, λ h. refl)
  count_lem field age actual (some (negsuc n)) = (λ h. cc, λ h. elim h [ ])
  count_lem field age actual (some (pos n)) =
      by_kind (is_bidirectional field) (check_percentage log10 root n age actual)
        (check_increasing n (small_tolerance n)
          (engagement_tolerance (field_multiplier field) n age) actual)
        (check_percentage_lem log10 root n age actual)
        (check_increasing_lem n (small_tolerance n)
          (engagement_tolerance (field_multiplier field) n age) actual)

  pub named_lem : (f : CountField) (o : Option Problem) → (named f o ≡ none) ↔ (o ≡ none)
  unfolding named
  named_lem f none = (λ h. refl, λ h. refl)
  named_lem f (some p) = (λ h. cc, λ h. cc)

  pub counts_lem :
      (fs : List CountField) (age : ℕ) (s a : XContent)
      → (check_counts log10 root fs age s a ≡ none)
        ↔ All (λ f. CountFits f age (a.counts f) (s.counts f)) fs
  unfolding check_counts
  counts_lem [] age s a = (λ h. tt, λ h. refl)
  counts_lem (f ∷ fs) age s a =
      let problem = check_count log10 root f age (a.counts f) (s.counts f) in
      iff_trans (first_problem_iff (named f problem) (check_counts log10 root fs age s a)) (
        iff_both (iff_trans (named_lem f problem) (count_lem f age (a.counts f) (s.counts f)))
          (counts_lem fs age s a))
