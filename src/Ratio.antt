-- ===== src/Ratio.antt =====
-- Exact fractions that stand for the floats of the scores: `Ratio` for what is never negative, and `Amount`, which
-- keeps what was gained and what was lost over one denominator.
pub mod Laws
use custom_scraper.Prelude.{Bool, if◌then◌else◌, ltb, ℕ, ◌*◌, ◌+◌, ◌-◌, ◌<◌, ◌≡◌, ◌≤◌}

pub record Ratio : Type 0 where
  pub num : ℕ
  pub den : ℕ

abbrev pub over : ℕ → ℕ → Ratio
over n d = record { num = n; den = d }

unfoldable pub mul : Ratio → Ratio → Ratio
mul a b = over (a.num * b.num) (a.den * b.den)

unfoldable pub add : Ratio → Ratio → Ratio
add a b = over (a.num * b.den + b.num * a.den) (a.den * b.den)

-- `max(a - b, 0)`
unfoldable pub sub : Ratio → Ratio → Ratio
sub a b = over (a.num * b.den - b.num * a.den) (a.den * b.den)

-- `1 - a`, where `a` is at most 1.
unfoldable pub complement : Ratio → Ratio
complement a = over (a.den - a.num) a.den

-- `min(1, a)`
unfoldable pub at_most_one : Ratio → Ratio
at_most_one a = if ltb a.den a.num then over 1 1 else a

-- `alpha * new + (1 - alpha) * old`
unfoldable pub mix : Ratio → Ratio → Ratio → Ratio
unfolding mul add complement
mix alpha new old = add (mul alpha new) (mul (complement alpha) old)

-- A number from 0 to 1.
abbrev pub IsShare : Ratio → Type 0
IsShare a = (0 < a.den) × (a.num ≤ a.den)

pub record Amount : Type 0 where
  pub gained : ℕ
  pub lost : ℕ
  pub unit : ℕ

abbrev pub no_amount : Amount
no_amount = record { gained = 0; lost = 0; unit = 1 }

unfoldable pub is_positive : Amount → Bool
is_positive a = ltb a.lost a.gained

-- `a > b`
unfoldable pub exceeds : Amount → Amount → Bool
exceeds a b = ltb (b.gained * a.unit + a.lost * b.unit) (a.gained * b.unit + b.lost * a.unit)

-- `a / b`, where both are positive.
unfoldable pub quotient : Amount → Amount → Ratio
quotient a b = over ((a.gained - a.lost) * b.unit) ((b.gained - b.lost) * a.unit)

unfoldable pub add_ratio : Amount → Ratio → Amount
add_ratio a r = record {
  gained = a.gained * r.den + r.num * a.unit;
  lost = a.lost * r.den;
  unit = a.unit * r.den;
}

unfoldable pub scale : Amount → Ratio → Amount
scale a r = record { gained = a.gained * r.num; lost = a.lost * r.num; unit = a.unit * r.den }

-- Equality of what fractions and amounts stand for.
abbrev pub SameRatio : Ratio → Ratio → Type 0
SameRatio a b = a.num * b.den ≡ b.num * a.den

abbrev pub SameAmount : Amount → Amount → Type 0
SameAmount a b = a.gained * b.unit + b.lost * a.unit ≡ b.gained * a.unit + a.lost * b.unit
