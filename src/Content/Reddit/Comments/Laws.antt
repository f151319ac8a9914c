-- ===== src/Content/Reddit/Comments/Laws.antt =====
-- Which numbers of comments pass.
use custom_scraper.Content.{
  DataEntity, ValidationResult, accepted, passes, passes_if, passes_unless, rejected,
}
use custom_scraper.Content.Reddit.{
  Reason, RedditContent, comments_negative, comments_not_supported, comments_penalized,
  comments_too_many, comments_unrealistic, comments_valid,
}
use custom_scraper.Content.Reddit.Comments.{
  calculate_comment_count_tolerance, calculate_max_reasonable_comment_count, check_between,
  check_bounds, check_comments, check_found_comments, comment_bounds, counted, deviation, is_post,
  max_reasonable_ratio, penalized, positive_score, validate_comment_count,
  validate_comment_score_ratio,
}
use custom_scraper.Prelude.{
  Bool, Option, arith, false, if◌then◌else◌, leb, ltb, max, none, not, refl, some, suc, sym, true,
  zero, ℕ, ◌&&◌, ◌*◌, ◌+◌, ◌-◌, ◌↔◌, ◌∙◌, ◌≡◌, ◌≤◌,
}
use custom_scraper.Prelude.Iff.{false_le, iff_both, iff_refl, iff_trans}
use custom_scraper.Prelude.Int.{negsuc, pos, pos_part, ℤ}

-- A score that is given, and is not zero, allows so many comments.
abbrev pub RatioAllows : Option ℤ → ℕ → Type 0
RatioAllows none comments = Unit
RatioAllows (some (pos zero)) comments = Unit
RatioAllows (some (pos (suc s))) comments = comments ≤ max_reasonable_ratio (suc s) * suc s
RatioAllows (some (negsuc s)) comments = comments ≤ 50

ratio_lem :
    (score : Option ℤ) (comments : ℕ) (e : DataEntity)
    → ((validate_comment_score_ratio score comments e).is_valid ≡ true) ↔ RatioAllows score comments
unfolding validate_comment_score_ratio accepted rejected
ratio_lem none comments e = (λ h. tt, λ h. refl)
ratio_lem (some (pos zero)) comments e = (λ h. tt, λ h. refl)
ratio_lem (some (pos (suc s))) comments e = (λ h. ground arith, λ h. ground arith)
ratio_lem (some (negsuc s)) comments e = (λ h. ground arith, λ h. ground arith)

-- A number is at most eight times outside of its bounds, and where it is inside of them something more holds.
abbrev pub IsBetween : ℕ → ℕ → ℕ → ℕ → Type 0 → Type 0
IsBetween comments least most found Inside =
    (comments ≤ most + 8 * max most 1)
    × (least ≤ comments + 8 * max found 1)
    × (least ≤ comments → comments ≤ most → Inside)

check_between-is_valid :
    (comments least most found : ℕ) (ratio : ValidationResult Reason) (e : DataEntity)
    → (check_between comments least most found ratio e).is_valid ≡ (
        if leb least comments && leb comments most
        then ratio.is_valid
        else not (
            ltb
              (8 * (deviation comments least most found).1)
              (deviation comments least most found).0))
unfolding check_between accepted rejected
check_between-is_valid comments least most found ratio e =
    by_tests (leb least comments && leb comments most)
      (ltb (8 * (deviation comments least most found).1) (deviation comments least most found).0)
      ratio.is_valid refl
  where
    by_tests :
        (inside extreme valid : Bool)
        → ratio.is_valid ≡ valid
        → (if inside
            then (if ratio.is_valid then accepted comments_valid e else ratio)
            else if extreme
            then rejected comments_unrealistic e
            else record {
              is_valid = true;
              reason = comments_penalized;
              content_size_bytes_validated =
                  penalized e.content_size_bytes (deviation comments least most found);
            }).is_valid
          ≡ (if inside then ratio.is_valid else not extreme)
    by_tests true extreme true same = rw (same, if◌then◌else◌) refl
    by_tests true extreme false same = rw (same, if◌then◌else◌) refl
    by_tests false true valid same = refl
    by_tests false false valid same = refl

by_deviation :
    (comments least most found : ℕ) (valid : Bool)
    → least ≤ most
    → ((if leb least comments && leb comments most
          then valid
          else not (
              ltb
                (8 * (deviation comments least most found).1)
                (deviation comments least most found).0))
        ≡ true)
      ↔ IsBetween comments least most found (valid ≡ true)
unfolding deviation
by_deviation comments least most found valid order =
    (λ h. (ground arith, ground arith, λ low high. ground arith), λ h. ground (arith, h.2))

comment_bounds_order :
    (found tolerance : ℕ) → (comment_bounds found tolerance).0 ≤ (comment_bounds found tolerance).1
unfolding comment_bounds
comment_bounds_order found tolerance = ground arith

-- The number is at most eight times outside of its bounds, and inside of them the score allows it.
abbrev pub BoundsFit : ℕ → ℕ → ℕ → Option ℤ → Type 0
BoundsFit comments found tolerance score =
    let (least, most) = comment_bounds found tolerance in
    IsBetween comments least most found (RatioAllows score comments)

check_bounds_lem :
    (comments found tolerance : ℕ) (score : Option ℤ) (e : DataEntity)
    → ((check_bounds comments found tolerance score e).is_valid ≡ true)
      ↔ BoundsFit comments found tolerance score
unfolding check_bounds
check_bounds_lem comments found tolerance score e =
    let (least, most) = comment_bounds found tolerance in
    let (allows, back) = ratio_lem score comments e in
    let same =
      check_between-is_valid comments least most found
        (validate_comment_score_ratio score comments e) e in
    let (to, from) =
      by_deviation comments least most found
        (validate_comment_score_ratio score comments e).is_valid
        (comment_bounds_order found tolerance) in
    (
      λ h. let k = to (sym same ∙ h) in (k.0, k.1, λ low high. allows (k.2 low high)),
      λ h. same ∙ from (h.0, h.1, λ low high. back (h.2 low high)),
    )

-- What a number of comments has to meet, against the one that was found.
abbrev pub FoundFits : ℕ → ℕ → ℕ → Option ℤ → Option ℤ → Type 0
FoundFits comments score_part age score none = ⊥
FoundFits comments score_part age score (some found) =
    BoundsFit comments (pos_part found)
      (calculate_comment_count_tolerance score_part (pos_part found) age) score

check_found_lem :
    (comments score_part age : ℕ) (score found : Option ℤ) (e : DataEntity)
    → (passes (check_found_comments comments score_part age score found e) ≡ true)
      ↔ FoundFits comments score_part age score found
unfolding check_found_comments
check_found_lem comments score_part age score none e = (λ h. cc, λ h. elim h [ ])
check_found_lem comments score_part age score (some found) e =
    check_bounds_lem comments (pos_part found)
      (calculate_comment_count_tolerance score_part (pos_part found) age) score e

-- The number that was submitted, if one was: not negative, not above what the age and the score allow, and for a post of
-- which a number was found, to which it fits.
abbrev pub CommentsFit : ℕ → RedditContent → RedditContent → Option ℤ → Type 0
CommentsFit now submitted actual none = Unit
CommentsFit now submitted actual (some (negsuc n)) = ⊥
CommentsFit now submitted actual (some (pos comments)) =
    (is_post submitted.data_type ≡ true)
    × ((comments
          ≤ calculate_max_reasonable_comment_count (positive_score submitted.score)
              (now - submitted.created_at))
        × FoundFits comments (positive_score submitted.score) (now - submitted.created_at)
            submitted.score actual.num_comments)

module _ (now : ℕ) (submitted actual : RedditContent) (e : DataEntity) where
  negative :
      (b : Bool)
      → passes (
          if not b
          then some (rejected comments_not_supported e)
          else some (rejected comments_negative e))
        ≡ true
      → ⊥
  unfolding rejected
  negative true h = cc
  negative false h = cc

  counted_lem :
      (comments : Option ℤ)
      → (passes (counted now submitted actual e comments) ≡ true)
        ↔ CommentsFit now submitted actual comments
  unfolding counted accepted rejected check_comments is_post
  counted_lem none = (λ h. tt, λ h. refl)
  counted_lem (some (negsuc n)) = (λ h. negative (is_post submitted.data_type) h, λ h. elim h [ ])
  counted_lem (some (pos comments)) =
      let age = now - submitted.created_at in
      let score = positive_score submitted.score in
      let most = calculate_max_reasonable_comment_count score age in
      let rest = check_found_comments comments score age submitted.score actual.num_comments e in
      iff_trans
        (passes_unless (is_post submitted.data_type) comments_not_supported e
          (check_comments now submitted actual e (pos comments)))
        (iff_both (iff_refl _) (
          iff_trans (passes_if (ltb most comments) comments_too_many e rest) (
            iff_both (false_le most comments)
              (check_found_lem comments score age submitted.score actual.num_comments e))))

pub validate_comment_count_lem :
    (now : ℕ) (submitted actual : RedditContent) (e : DataEntity)
    → (passes (validate_comment_count now submitted actual e) ≡ true)
      ↔ CommentsFit now submitted actual submitted.num_comments
unfolding validate_comment_count
validate_comment_count_lem now submitted actual e =
    counted_lem now submitted actual e submitted.num_comments
