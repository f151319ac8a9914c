-- ===== src/Prelude/Float.antt =====
-- The floats as far as they are compared and subtracted: the finite ones are whole numbers of a unit, and sums are exact.
use custom_scraper.Prelude.Int.{ltb_ℤ, leb_ℤ, ℤ, ◌-ℤ◌}
use custom_scraper.Prelude.Tests.{if◌then◌else◌}
use mathlib.Core.Bool.{Bool, false, true}

pub data Float : Type 0 where
  nan plus_infinity minus_infinity : Float
  finite : ℤ → Float

-- `a < b`, which is false where one of the two is NaN.
unfoldable pub less : Float → Float → Bool
less nan b = false
less plus_infinity b = false
less minus_infinity nan = false
less minus_infinity minus_infinity = false
less minus_infinity plus_infinity = true
less minus_infinity (finite b) = true
less (finite a) nan = false
less (finite a) minus_infinity = false
less (finite a) plus_infinity = true
less (finite a) (finite b) = ltb_ℤ a b

-- `a <= b`
unfoldable pub at_most : Float → Float → Bool
at_most nan b = false
at_most plus_infinity nan = false
at_most plus_infinity minus_infinity = false
at_most plus_infinity plus_infinity = true
at_most plus_infinity (finite b) = false
at_most minus_infinity nan = false
at_most minus_infinity minus_infinity = true
at_most minus_infinity plus_infinity = true
at_most minus_infinity (finite b) = true
at_most (finite a) nan = false
at_most (finite a) minus_infinity = false
at_most (finite a) plus_infinity = true
at_most (finite a) (finite b) = leb_ℤ a b

-- `a - b`
unfoldable pub minus : Float → Float → Float
minus nan b = nan
minus plus_infinity nan = nan
minus plus_infinity plus_infinity = nan
minus plus_infinity minus_infinity = plus_infinity
minus plus_infinity (finite b) = plus_infinity
minus minus_infinity nan = nan
minus minus_infinity minus_infinity = nan
minus minus_infinity plus_infinity = minus_infinity
minus minus_infinity (finite b) = minus_infinity
minus (finite a) nan = nan
minus (finite a) plus_infinity = minus_infinity
minus (finite a) minus_infinity = plus_infinity
minus (finite a) (finite b) = finite (a -ℤ b)

-- `max(a, b)`, which is `a` unless `b` is greater.
unfoldable pub larger : Float → Float → Float
unfolding less
larger a b = if less a b then b else a
