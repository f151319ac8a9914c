-- ===== src/Content/Counts/Laws.antt =====
-- Which counts pass.
use custom_scraper.Content.Counts.{
  age_multiplier, base_percentage, capped_at, check_against, check_increasing, check_percentage,
  final_tolerance, is_decrease, max_percentage,
}
use custom_scraper.Prelude.{
  Option, arith, max, none, not_below, refl, some, suc, zero, ℕ, ◌*◌, ◌+◌, ◌/◌, ◌↔◌, ◌≡◌, ◌≤◌,
}
use custom_scraper.Prelude.Int.{negsuc, pos, ℤ, ◌+ℤ◌, ◌≤ℤ◌}
use custom_scraper.Ratio.{Ratio, over}
use native.Mathlib.Nat.{div-le_of_le-mul, mul-le-mul, mul-le-mul_left, mul_comm}

-- A count that only increases exceeds the one that was found by no more than the tolerance for decreases.
abbrev pub NotAbove : ℕ → ℕ → Option ℤ → Type 0
NotAbove submitted small none = Unit
NotAbove submitted small (some actual) = pos submitted ≤ℤ (actual +ℤ pos small)

-- The last test of the range never fails: the count is compared with itself.
pub check_increasing_lem :
    (submitted small tolerance : ℕ) (actual : Option ℤ)
    → (check_increasing submitted small tolerance actual ≡ none) ↔ NotAbove submitted small actual
unfolding check_increasing is_decrease
check_increasing_lem submitted small tolerance none = (λ h. tt, λ h. ground arith)
check_increasing_lem submitted small tolerance (some a) = (λ h. ground arith, λ h. ground arith)

capped_at-le : (k : ℕ) (r : Ratio) → (capped_at k r).num ≤ k * (capped_at k r).den
unfolding capped_at
capped_at-le k r = ground arith

age_multiplier-le : (age : ℕ) → age_multiplier age ≤ 40
unfolding age_multiplier
age_multiplier-le age = ground arith

capped_at_same : (k : ℕ) (r : Ratio) → r.num ≤ k * r.den → capped_at k r ≡ r
unfolding capped_at
capped_at_same k r h = rw (not_below (k * r.den) r.num h) refl

multiplied-le : (n d m : ℕ) → n ≤ 50 * d → m ≤ 40 → n * m ≤ 200 * (d * 10)
multiplied-le n d m h k = omega (arith, mul-le-mul h k)

share-le : (a n d : ℕ) → n ≤ 200 * d → a * n / (d * 100) ≤ 2 * a
share-le a n d h = div-le_of_le-mul (d * 100) (omega (arith, mul-le-mul_left a h, mul_comm a d))

module _ (log10 : ℕ → Ratio) where
  base_percentage-le :
      (actual : ℕ) → (base_percentage log10 actual).num ≤ 50 * (base_percentage log10 actual).den
  unfolding base_percentage
  base_percentage-le actual =
      capped_at-le 50 (over (200 * (log10 (max actual 10)).den) (log10 (max actual 10)).num)

  -- The cap of 500 percent is never reached.
  max_percentage_lem :
      (actual age : ℕ)
      → max_percentage log10 actual age
        ≡ over
            ((base_percentage log10 actual).num * age_multiplier age)
            ((base_percentage log10 actual).den * 10)
  unfolding max_percentage
  max_percentage_lem actual age =
      let base = base_percentage log10 actual in
      capped_at_same 500 (over (base.num * age_multiplier age) (base.den * 10)) (
        omega (
          arith,
          multiplied-le base.num base.den (age_multiplier age) (base_percentage-le actual)
              (age_multiplier-le age),
        ))

module _ (log10 : ℕ → Ratio) (root : ℕ → ℕ) where
  -- The tolerance is at most twice the count that was found, or what the square root or 50 allow.
  final_tolerance-le :
      (actual age : ℕ)
      → final_tolerance log10 root actual age ≤ max (2 * actual) (max (root actual) 50)
  unfolding final_tolerance
  final_tolerance-le actual age =
      let base = base_percentage log10 actual in
      let most = max_percentage log10 actual age in
      let less =
        multiplied-le base.num base.den (age_multiplier age) (base_percentage-le log10 actual)
          (age_multiplier-le age) in
      omega
        (arith, share-le actual most.num most.den (rw (max_percentage_lem log10 actual age) less))

  -- A count passes if none above zero was found, or if it is within the tolerance of the one that was.
  abbrev pub IsNear : ℕ → ℕ → Option ℤ → Type 0
  IsNear submitted age none = Unit
  IsNear submitted age (some (negsuc n)) = Unit
  IsNear submitted age (some (pos zero)) = Unit
  IsNear submitted age (some (pos (suc n))) =
      (suc n ≤ submitted + final_tolerance log10 root (suc n) age)
      × (submitted ≤ suc n + final_tolerance log10 root (suc n) age)

  pub check_percentage_lem :
      (submitted age : ℕ) (actual : Option ℤ)
      → (check_percentage log10 root submitted age actual ≡ none) ↔ IsNear submitted age actual
  unfolding check_percentage check_against
  check_percentage_lem submitted age none = (λ h. tt, λ h. refl)
  check_percentage_lem submitted age (some (negsuc n)) = (λ h. tt, λ h. refl)
  check_percentage_lem submitted age (some (pos zero)) = (λ h. tt, λ h. refl)
  check_percentage_lem submitted age (some (pos (suc n))) = (λ h. ground arith, λ h. ground arith)

  -- For a count above zero that was found: the percentage by which another may differ is at most 200, so the cap of 500
  -- percent is never reached; and a count that passes exceeds the one found by no more than twice that, ten times the
  -- square root of it, or 50, whichever is most.
  pub check_percentage-le :
      (submitted age found : ℕ)
      → check_percentage log10 root submitted age (some (pos (suc found))) ≡ none
      → ((max_percentage log10 (suc found) age).num
          ≤ 200 * (max_percentage log10 (suc found) age).den)
        × (submitted ≤ suc found + max (2 * suc found) (max (root (suc found)) 50))
  check_percentage-le submitted age found h =
      let base = base_percentage log10 (suc found) in
      let less =
        multiplied-le base.num base.den (age_multiplier age) (base_percentage-le log10 (suc found))
          (age_multiplier-le age) in
      (
        rw (max_percentage_lem log10 (suc found) age) less,
        omega (
          arith,
          ((check_percentage_lem submitted age (some (pos (suc found)))).0 h).1,
          final_tolerance-le (suc found) age,
        ),
      )
