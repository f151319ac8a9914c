-- ===== src/Content/Reddit/Scores/Laws.antt =====
-- Which scores pass.
use custom_scraper.Content.{DataEntity, accepted, passes, passes_if, rejected}
use custom_scraper.Content.Reddit.{
  Reason, RedditContent, RedditDataType, comment, post, score_too_high, score_unrealistic,
}
use custom_scraper.Content.Reddit.Scores.{
  at_least_one, calculate_max_reasonable_score, check_found, check_ratio, check_score,
  is_extreme_score, score_rate, scored, tolerance_for, validate_score_content,
}
use custom_scraper.Prelude.{
  Option, ap, arith, false, max, min, none, refl, some, true, ℕ, ◌*◌, ◌+◌, ◌-◌, ◌/◌, ◌↔◌, ◌≡◌, ◌≤◌,
}
use custom_scraper.Prelude.Iff.{iff_both, iff_trans}
use custom_scraper.Prelude.Int.{
  +ℤ_parts, difference_parts, ltb_ℤ, neg_part, pos, pos-add, pos_part, ℤ, ◌+ℤ◌, ◌-ℤ◌, ◌≤ℤ◌,
}
use mathlib.Core.Path.{subst}

rejected-is_valid : (r : Reason) (e : DataEntity) → (rejected r e).is_valid ≡ false
unfolding rejected
rejected-is_valid r e = refl

-- A ratio passes if none is given, or if one is expected and it is from 0 to 1.
abbrev pub RatioFits : ℕ → Option ℤ → Option ℤ → Type 0
RatioFits one none actual = Unit
RatioFits one (some ratio) none = ⊥
RatioFits one (some ratio) (some _) = (pos 0 ≤ℤ ratio) × (ratio ≤ℤ pos one)

pub check_ratio_lem :
    (one : ℕ) (ratio actual : Option ℤ) (e : DataEntity)
    → ((check_ratio one ratio actual e).is_valid ≡ true) ↔ RatioFits one ratio actual
unfolding check_ratio accepted rejected
check_ratio_lem one none actual e = (λ h. tt, λ h. refl)
check_ratio_lem one (some r) none e = (λ h. cc, λ h. elim h [ ])
check_ratio_lem one (some r) (some a) e = (λ h. ground arith, λ h. ground arith)

pub max_reasonable_le :
    (type : RedditDataType) (age : ℕ) → calculate_max_reasonable_score type age ≤ 50000
unfolding calculate_max_reasonable_score score_rate
max_reasonable_le post age = omega arith
max_reasonable_le comment age = omega arith

-- The bounds of a score that is no extreme outlier.
abbrev pub IsPlausible : ℤ → ℤ → ℕ → Type 0
IsPlausible submitted actual age =
    (submitted ≤ℤ (
      actual
      +ℤ pos (tolerance_for actual age)
      +ℤ pos (5 * at_least_one (actual +ℤ pos (tolerance_for actual age)))))
    × ((actual -ℤ pos (min (tolerance_for actual age / 2) 10))
        ≤ℤ (submitted +ℤ pos (5 * at_least_one actual)))

is_extreme_score_lem :
    (submitted actual : ℤ) (age : ℕ)
    → (is_extreme_score submitted actual age ≡ false) ↔ IsPlausible submitted actual age
unfolding is_extreme_score
is_extreme_score_lem submitted actual age =
    let t = tolerance_for actual age in
    (
      λ h. ground (
        arith,
        +ℤ_parts actual (pos t),
        difference_parts actual (pos (min (t / 2) 10)),
        +ℤ_parts (actual +ℤ pos t) (pos (5 * at_least_one (actual +ℤ pos t))),
        +ℤ_parts submitted (pos (5 * at_least_one actual)),
      ),
      λ h. ground (
        arith,
        +ℤ_parts actual (pos t),
        difference_parts actual (pos (min (t / 2) 10)),
        +ℤ_parts (actual +ℤ pos t) (pos (5 * at_least_one (actual +ℤ pos t))),
        +ℤ_parts submitted (pos (5 * at_least_one actual)),
      ),
    )

-- What a score that was submitted has to meet.
abbrev pub FoundFits : ℕ → ℕ → ℤ → Option ℤ → Option ℤ → Option ℤ → Type 0
FoundFits one age score none ratio found_ratio = ⊥
FoundFits one age score (some found) ratio found_ratio =
    IsPlausible score found age × RatioFits one ratio found_ratio

check_found_lem :
    (one age : ℕ) (score : ℤ) (found ratio found_ratio : Option ℤ) (e : DataEntity)
    → (passes (check_found one age score found ratio found_ratio e) ≡ true)
      ↔ FoundFits one age score found ratio found_ratio
unfolding check_found
check_found_lem one age score none ratio found_ratio e = (λ h. cc, λ h. elim h [ ])
check_found_lem one age score (some found) ratio found_ratio e =
    iff_trans (passes_if _ score_unrealistic e _)
      (iff_both (is_extreme_score_lem score found age) (check_ratio_lem one ratio found_ratio e))

-- What the score that was submitted has to meet: it is not above what its age allows, a score was found, and it and its
-- ratio fit to what was found.
abbrev pub ScoreFits : ℕ → ℕ → RedditContent → RedditContent → Option ℤ → Type 0
ScoreFits one now submitted actual none = Unit
ScoreFits one now submitted actual (some score) =
    (score ≤ℤ pos (calculate_max_reasonable_score submitted.data_type (now - submitted.created_at)))
    × FoundFits one (now - submitted.created_at) score actual.score submitted.upvote_ratio
        actual.upvote_ratio

pub false_leb : (a b : ℤ) → (ltb_ℤ a b ≡ false) ↔ (b ≤ℤ a)
false_leb a b = (λ h. ground arith, λ h. ground arith)

module _ (one now : ℕ) (submitted actual : RedditContent) (e : DataEntity) where
  scored_lem :
      (score : Option ℤ)
      → (passes (scored one now submitted actual e score) ≡ true)
        ↔ ScoreFits one now submitted actual score
  unfolding scored accepted check_score
  scored_lem none = (λ h. tt, λ h. refl)
  scored_lem (some score) =
      let age = now - submitted.created_at in
      let most = pos (calculate_max_reasonable_score submitted.data_type age) in
      let rest =
        check_found one age score actual.score submitted.upvote_ratio actual.upvote_ratio e in
      iff_trans (passes_if (ltb_ℤ most score) score_too_high e rest) (
        iff_both (false_leb most score)
          (check_found_lem one age score actual.score submitted.upvote_ratio actual.upvote_ratio e))

pub validate_score_content_lem :
    (one now : ℕ) (submitted actual : RedditContent) (e : DataEntity)
    → (passes (validate_score_content one now submitted actual e) ≡ true)
      ↔ ScoreFits one now submitted actual submitted.score
unfolding validate_score_content
validate_score_content_lem one now submitted actual e =
    scored_lem one now submitted actual e submitted.score

-- The bound on a score against one that was found and is not negative.
plausible-le :
    (score : ℤ) (found age : ℕ)
    → IsPlausible score (pos found) age
    → score ≤ℤ pos (6 * max 1 (found + tolerance_for (pos found) age))
unfolding at_least_one
plausible-le score found age h =
    let t = tolerance_for (pos found) age in
    omega (
      arith,
      h.0,
      ap pos_part (pos-add found t),
      ap neg_part (pos-add found t),
      +ℤ_parts (pos found +ℤ pos t) (pos (5 * at_least_one (pos found +ℤ pos t))),
    )

found_exists :
    (one age : ℕ) (score : ℤ) (o ratio found_ratio : Option ℤ)
    → FoundFits one age score o ratio found_ratio
    → (found : ℤ) × (o ≡ some found) × IsPlausible score found age
found_exists one age score none ratio found_ratio h = elim h [ ]
found_exists one age score (some found) ratio found_ratio h = (found, refl, h.0)

-- A score that passes is at most 50000, and one was found, negative or not, to whose bounds it keeps; if that one is not
-- negative, it is at most six times what the allowance makes of that.
pub validate_score_content-le :
    (one now : ℕ) (submitted actual : RedditContent) (e : DataEntity) (score : ℤ)
    → submitted.score ≡ some score
    → passes (validate_score_content one now submitted actual e) ≡ true
    → (score ≤ℤ pos 50000)
      × ((found : ℤ) × (actual.score ≡ some found)
          × IsPlausible score found (now - submitted.created_at)
          × ((n : ℕ)
              → found ≡ pos n
              → score ≤ℤ pos (6 * max 1 (n + tolerance_for (pos n) (now - submitted.created_at)))))
validate_score_content-le one now submitted actual e score given h =
    let age = now - submitted.created_at in
    let fits =
      subst (λ (o : Option ℤ). ScoreFits one now submitted actual o) given
        ((validate_score_content_lem one now submitted actual e).0 h) in
    let (found, there, plausible) =
      found_exists one age score actual.score submitted.upvote_ratio actual.upvote_ratio fits.1 in
    (
      omega (arith, fits.0, max_reasonable_le submitted.data_type age),
      (
        found,
        there,
        plausible,
        λ n same. plausible-le score n age (subst (λ f. IsPlausible score f age) same plausible),
      ),
    )
