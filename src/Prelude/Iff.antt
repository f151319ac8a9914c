-- ===== src/Prelude/Iff.antt =====
-- Equivalences put together, and chains of checks that return at the first problem.
use mathlib.Core.Path.{◌≡◌, refl}
use mathlib.Core.Logic.{◌↔◌}
use mathlib.Core.Bool.{Bool, true, false, not}
use mathlib.Core.Option.{Option, none, some}
use native.Mathlib.Omega.{arith}
use native.Mathlib.Omega.{arith}
use custom_scraper.Prelude.Tests.{if◌then◌else◌, ltb}
use Prim.Native.Nat.{ℕ, ◌≤◌}

module _ {A B C : Type 0} where
  pub iff_trans : (A ↔ B) → (B ↔ C) → (A ↔ C)
  iff_trans p q = (λ a. q.0 (p.0 a), λ c. p.1 (q.1 c))

module _ {A B C D : Type 0} where
  pub iff_both : (A ↔ B) → (C ↔ D) → ((A × C) ↔ (B × D))
  iff_both p q = (λ h. (p.0 h.0, q.0 h.1), λ h. (p.1 h.0, q.1 h.1))

module _ {R : Type 0} where
  -- `if b then return problem`, and the rest.
  pub if_problem_iff :
      (b : Bool) (problem : R) (rest : Option R)
      → ((if b then some problem else rest) ≡ none) ↔ ((b ≡ false) × (rest ≡ none))
  if_problem_iff true problem rest = (λ h. cc, λ h. cc (h.0))
  if_problem_iff false problem rest = (λ h. (refl, h), λ h. h.1)

  -- The first problem of two checks.
  abbrev pub first_problem : Option R → Option R → Option R
  first_problem none rest = rest
  first_problem (some problem) rest = some problem

  pub first_problem_iff :
      (o rest : Option R) → (first_problem o rest ≡ none) ↔ ((o ≡ none) × (rest ≡ none))
  first_problem_iff none rest = (λ h. (refl, h), λ h. h.1)
  first_problem_iff (some problem) rest = (λ h. cc, λ h. cc (h.0))

  -- `if not b then return problem`, and the rest.
  pub unless_iff :
      (b : Bool) (problem : R) (rest : Option R)
      → ((if not b then some problem else rest) ≡ none) ↔ ((b ≡ true) × (rest ≡ none))
  unless_iff true problem rest = (λ h. (refl, h), λ h. h.1)
  unless_iff false problem rest = (λ h. cc, λ h. cc (h.0))

module _ (A : Type 0) where
  pub iff_refl : A ↔ A
  iff_refl = (λ a. a, λ a. a)

pub false_le : (a b : ℕ) → (ltb a b ≡ false) ↔ (b ≤ a)
false_le a b = (λ h. ground arith, λ h. ground arith)
