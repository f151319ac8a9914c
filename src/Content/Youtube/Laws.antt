-- ===== src/Content/Youtube/Laws.antt =====
-- Which instants, thumbnails and counts of a video pass.
use custom_scraper.Content.{obfuscate_datetime_to_minute}
use custom_scraper.Content.Counts.{
  Problem, check_increasing, check_percentage, engagement_tolerance,
}
use custom_scraper.Content.Counts.Laws.{
  IsNear, NotAbove, check_increasing_lem, check_percentage_lem,
}
use custom_scraper.Content.Youtube.{
  CountField, YouTubeContent, check_count, check_counts, field_multiplier, is_bidirectional,
  is_given, named, small_tolerance, validate_subscriber_count_percentage,
  validate_youtube_engagement_field, validate_youtube_thumbnails, validate_youtube_timestamp,
}
use custom_scraper.Prelude.{
  ==_iff, All, Bool, Bool-cases, List, Option, String, [], arith, false, if◌then◌else◌, inl, inr,
  none, refl, some, string_key, true, ℕ, ◌<◌, ◌==◌, ◌↔◌, ◌∷◌, ◌≡◌, ◌⊎◌,
}
use custom_scraper.Prelude.Iff.{first_problem_iff, iff_both, iff_trans}
use custom_scraper.Prelude.Int.{negsuc, pos, ℤ}
use custom_scraper.Ratio.{Ratio}

-- Before the date the instant may be kept as it is.
abbrev pub InstantFits : ℕ → ℕ → ℕ → ℕ → Type 0
InstantFits required now stored actual =
    (stored ≡ obfuscate_datetime_to_minute actual) ⊎ ((now < required) × (stored ≡ actual))

pub timestamp_lem :
    (required now stored actual : ℕ)
    → (validate_youtube_timestamp required now stored actual ≡ none)
      ↔ InstantFits required now stored actual
unfolding validate_youtube_timestamp
timestamp_lem required now stored actual = (
  λ h. elim (Bool-cases (stored == obfuscate_datetime_to_minute actual)) [
    | inl same ↦ inl ((==_iff stored (obfuscate_datetime_to_minute actual)).0 same)
    | inr other ↦ inr (ground arith, ground arith)
  ],
  λ h. ground arith,
)

-- No thumbnail is given, or an empty one, or the one that was found.
abbrev pub ThumbnailsFit : Option String → Option String → Type 0
ThumbnailsFit s a = is_given s ≡ true → s ≡ a

pub thumbnails_lem :
    (s a : Option String) → (validate_youtube_thumbnails s a ≡ none) ↔ ThumbnailsFit s a
unfolding validate_youtube_thumbnails is_given
thumbnails_lem none a = (λ h k. cc, λ h. refl)
thumbnails_lem (some t) none = (λ h k. ground arith, λ h. ground (arith, h))
thumbnails_lem (some t) (some u) = (
  λ h k. ground (arith, string_key.same_iff t u),
  λ h. ground (arith, string_key.same_iff t u, h),
)

module _ (log10 : ℕ → Ratio) (root : ℕ → ℕ) where
  -- A count that was submitted is not negative; a number of subscribers is near to the one that was found, and another
  -- count exceeds the one found by no more than the tolerance for decreases.
  abbrev pub CountFits : CountField → ℕ → Option ℤ → Option ℤ → Type 0
  CountFits field age actual none = Unit
  CountFits field age actual (some (negsuc n)) = ⊥
  CountFits field age actual (some (pos n)) =
      if is_bidirectional field
      then IsNear log10 root n age actual
      else NotAbove n (small_tolerance field n) actual

  by_kind :
      (bidirectional : Bool) (near above : Option Problem) {P Q : Type 0}
      → ((near ≡ none) ↔ P)
      → ((above ≡ none) ↔ Q)
      → ((if bidirectional then near else above) ≡ none) ↔ (if bidirectional then P else Q)
  by_kind true near above h k = h
  by_kind false near above h k = k

  pub count_lem :
      (field : CountField) (age : ℕ) (actual submitted : Option ℤ)
      → (check_count log10 root field age actual submitted ≡ none)
        ↔ CountFits field age actual submitted
  unfolding check_count validate_youtube_engagement_field validate_subscriber_count_percentage
  count_lem field age actual none = (λ h. tt, λ h. refl)
  count_lem field age actual (some (negsuc n)) = (λ h. cc, λ h. elim h [ ])
  count_lem field age actual (some (pos n)) =
      let tolerance = engagement_tolerance (field_multiplier field) n age in
      by_kind (is_bidirectional field) (check_percentage log10 root n age actual)
        (check_increasing n (small_tolerance field n) tolerance actual)
        (check_percentage_lem log10 root n age actual)
        (check_increasing_lem n (small_tolerance field n) tolerance actual)

  pub named_lem : (f : CountField) (o : Option Problem) → (named f o ≡ none) ↔ (o ≡ none)
  unfolding named
  named_lem f none = (λ h. refl, λ h. refl)
  named_lem f (some p) = (λ h. cc, λ h. cc)

  pub counts_lem :
      (fs : List CountField) (age : ℕ) (s a : YouTubeContent)
      → (check_counts log10 root fs age s a ≡ none)
        ↔ All (λ f. CountFits f age (a.counts f) (s.counts f)) fs
  unfolding check_counts
  counts_lem [] age s a = (λ h. tt, λ h. refl)
  counts_lem (f ∷ fs) age s a =
      let problem = check_count log10 root f age (a.counts f) (s.counts f) in
      iff_trans (first_problem_iff (named f problem) (check_counts log10 root fs age s a)) (
        iff_both (iff_trans (named_lem f problem) (count_lem f age (a.counts f) (s.counts f)))
          (counts_lem fs age s a))
