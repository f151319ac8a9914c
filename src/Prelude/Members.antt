-- ===== src/Prelude/Members.antt =====
-- Lists of keys without repetition, by tests.
use mathlib.Core.Path.{◌≡◌, refl}
use mathlib.Core.Bool.{Bool, true, false, ◌||◌}
use mathlib.Core.List.{List, [], ◌∷◌}
use native.Mathlib.Omega.{arith}
use custom_scraper.Prelude.Lists.{All}
use custom_scraper.Prelude.Tests.{Key, if◌then◌else◌}

module _ {ℓ} {A : Type ℓ} ⦃e : Key A⦄ where
  -- `a in xs`
  unfoldable pub member : A → List A → Bool
  member a [] = false
  member a (x ∷ xs) = e.same x a || member a xs

  -- `xs` without `a`
  unfoldable pub without : A → List A → List A
  without a [] = []
  without a (x ∷ xs) = let rest = without a xs in if e.same x a then rest else x ∷ rest

  abbrev pub IsDistinct : List A → Type 0
  IsDistinct [] = Unit
  IsDistinct (x ∷ xs) = (member x xs ≡ false) × IsDistinct xs

  pub member-without :
      (a b : A) (xs : List A)
      → member b (without a xs) ≡ (if e.same a b then false else member b xs)
  unfolding member without
  member-without a b [] = ground arith
  member-without a b (x ∷ xs) =
      ground (arith, e.same_iff a b, e.same_iff x a, e.same_iff x b, member-without a b xs)

  pub without-IsDistinct : (a : A) (xs : List A) → IsDistinct xs → IsDistinct (without a xs)
  unfolding member without
  without-IsDistinct a [] h = tt
  without-IsDistinct a (x ∷ xs) h =
      ground (arith, member-without a x xs, without-IsDistinct a xs h.1)

  -- What holds of all members but `a`, or of `a` too, holds of all that are left without it.
  pub All-without {κ μ} :
      {P : A → Type κ} {Q : A → Type μ} (a : A) (xs : List A)
      → ((x : A) → e.same x a ≡ false → P x → Q x)
      → All P xs
      → All Q (without a xs)
  unfolding without
  All-without a [] f h = tt
  All-without {P} {Q} a (x ∷ xs) f h = go (e.same x a) refl (All-without a xs f h.1)
    where
      go :
          (b : Bool)
          → e.same x a ≡ b
          → All Q (without a xs)
          → All Q (if b then without a xs else x ∷ without a xs)
      go true p rest = rest
      go false p rest = (f x p h.0, rest)

  pub member-false_of_All :
      (p : A → Bool) (a : A) (xs : List A)
      → p a ≡ false
      → All (λ x. p x ≡ true) xs
      → member a xs ≡ false
  unfolding member
  member-false_of_All p a [] h k = refl
  member-false_of_All p a (x ∷ xs) h k =
      ground (arith, e.same_iff x a, member-false_of_All p a xs h k.1)
