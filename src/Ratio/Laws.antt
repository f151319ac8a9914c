-- ===== src/Ratio/Laws.antt =====
-- Shares under the operations.
use custom_scraper.Prelude.{
  Bool-cases, arith, inl, inr, leb, leb→le, leb→lt, ltb→le, ltb→lt, suc, true, zero, ℕ, ◌*◌, ◌+◌,
  ◌-◌, ◌<◌, ◌≡◌, ◌≤◌,
}
use custom_scraper.Ratio.{
  Amount, IsShare, Ratio, SameAmount, SameRatio, add, at_most_one, complement, exceeds, is_positive,
  mix, mul, quotient, scale, sub,
}
use mathlib.Core.Path.{subst, subst₂}
use native.Mathlib.Nat.{mul-le-mul, mul-le-mul_left, mul-le-mul_right, mul-sub}

pub pos-mul : (a b : ℕ) → 0 < a → 0 < b → 0 < a * b
pos-mul zero b p q = elim p [ ]
pos-mul (suc a) zero p q = elim q [ ]
pos-mul (suc a) (suc b) p q = omega arith

pub mul-IsShare : (a b : Ratio) → IsShare a → IsShare b → IsShare (mul a b)
unfolding mul
mul-IsShare a b (pa, la) (pb, lb) = (pos-mul a.den b.den pa pb, mul-le-mul la lb)

pub sub-IsShare : (a b : Ratio) → IsShare a → 0 < b.den → IsShare (sub a b)
unfolding sub
sub-IsShare a b (pa, la) pb = (pos-mul a.den b.den pa pb, omega (arith, mul-le-mul_right b.den la))

pub at_most_one-IsShare : (a : Ratio) → 0 < a.den → IsShare (at_most_one a)
unfolding at_most_one
at_most_one-IsShare a p = ground (arith, ltb→le a.den a.num)

mix_le :
    (p k n nd o od : ℕ)
    → n ≤ nd
    → o ≤ od
    → p * n * ((p + k) * od) + k * o * ((p + k) * nd) ≤ (p + k) * nd * ((p + k) * od)
mix_le p k n nd o od hn ho = omega (
  arith,
  mul-le-mul_right ((p + k) * od) (mul-le-mul_left p hn),
  mul-le-mul_right ((p + k) * nd) (mul-le-mul_left k ho),
)

pub the_rest : (p d : ℕ) → p ≤ d → p + (d - p) ≡ d
the_rest p d h = omega arith

pub mix-IsShare :
    (alpha new old : Ratio)
    → IsShare alpha
    → IsShare new
    → IsShare old
    → IsShare (mix alpha new old)
unfolding mix mul add complement
mix-IsShare alpha new old (pa, la) (pn, ln) (po, lo) = (
  pos-mul (alpha.den * new.den) (alpha.den * old.den) (pos-mul alpha.den new.den pa pn)
      (pos-mul alpha.den old.den pa po),
  subst
      (λ d.
        alpha.num * new.num * (d * old.den) + (alpha.den - alpha.num) * old.num * (d * new.den)
        ≤ d * new.den * (d * old.den))
      (the_rest alpha.num alpha.den la)
      (mix_le alpha.num (alpha.den - alpha.num) new.num new.den old.num old.den ln lo),
)

pub lt_le : {a b : ℕ} → a < b → a ≤ b
lt_le h = omega arith

pub quotient-IsShare :
    (a b : Amount)
    → is_positive a ≡ true
    → exceeds b a ≡ true
    → 0 < a.unit
    → 0 < b.unit
    → IsShare (quotient a b)
unfolding is_positive exceeds quotient
quotient-IsShare a b p e ua ub =
    let less = ltb→lt a.lost a.gained p in
    let more =
      ltb→lt (a.gained * b.unit + b.lost * a.unit) (b.gained * a.unit + a.lost * b.unit) e in
    (
      omega (arith, more, mul-sub a.unit b.gained b.lost, mul-le-mul_right b.unit (lt_le less)),
      omega (
        arith,
        more,
        mul-sub a.unit b.gained b.lost,
        mul-sub b.unit a.gained a.lost,
        mul-le-mul_right b.unit (lt_le less),
      ),
    )

-- What exceeds a positive amount is positive.
exceeds-is_positive : (a b : Amount) → is_positive a ≡ true → exceeds b a ≡ true → b.lost ≤ b.gained
unfolding is_positive exceeds
exceeds-is_positive a b p e =
    let less = ltb→lt a.lost a.gained p in
    let more =
      ltb→lt (a.gained * b.unit + b.lost * a.unit) (b.gained * a.unit + a.lost * b.unit) e in
    elim (Bool-cases (leb b.lost b.gained)) [
      | inl h ↦ leb→le b.lost b.gained h
      | inr h ↦
          elim (impossible more (mul-le-mul_right b.unit (lt_le less))
            (mul-le-mul_right a.unit (lt_le (leb→lt b.lost b.gained h)))) [ ]
    ]
  where
    impossible : {w x y z : ℕ} → w + x < y + z → z ≤ w → y ≤ x → 1 ≤ 0
    impossible h k l = omega arith

balanced :
    (sl x pl y su pu n d n' d' : ℕ)
    → n' * (d * (x * pu)) ≡ n * (y * su) * d'
    → (sl + x) * n' * (pu * d) + pl * n * (su * d') ≡ (pl + y) * n * (su * d') + sl * n' * (pu * d)
balanced sl x pl y su pu n d n' d' law = omega arith

-- An amount that has grown, scaled down by as much, is worth what it was.
pub scale-quotient :
    (score previous : Amount) (new old : Ratio)
    → is_positive previous ≡ true
    → exceeds score previous ≡ true
    → SameRatio new (mul old (quotient previous score))
    → SameAmount (scale score new) (scale previous old)
unfolding mul quotient scale is_positive
scale-quotient score previous new old p e law =
    subst₂
      (λ sg pg.
        sg * new.num * (previous.unit * old.den) + previous.lost * old.num * (score.unit * new.den)
        ≡ pg * old.num * (score.unit * new.den) + score.lost * new.num * (previous.unit * old.den))
      (the_rest score.lost score.gained (exceeds-is_positive previous score p e))
      (the_rest previous.lost previous.gained (lt_le (ltb→lt previous.lost previous.gained p)))
      (balanced score.lost (score.gained - score.lost) previous.lost
        (previous.gained - previous.lost) score.unit previous.unit old.num old.den new.num new.den
        law)
