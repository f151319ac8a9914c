-- ===== src/Sorting.antt =====
-- `sorted` on numbers, and `bisect.bisect_left`.
use custom_scraper.Prelude.{
  All, All-map, Bool, Bool-cases, List, [], ap, arith, false, get_elem?, if◌then◌else◌, inl, inr,
  leb, leb→le, leb→lt, length, ltb, ltb→le, ltb→lt, member, nat_key, refl, same_refl, some, suc,
  true, ℕ, ◌<◌, ◌||◌, ◌∙◌, ◌∷◌, ◌≡◌, ◌≤◌, ◌⊎◌,
}
use mathlib.Core.List.{Perm}
use mathlib.Core.List.Perm

-- A number goes before the first that is not smaller.
unfoldable pub place : ℕ → List ℕ → List ℕ
place n [] = n ∷ []
place n (x ∷ xs) = let rest = place n xs in if leb n x then n ∷ x ∷ xs else x ∷ rest

unfoldable pub sorted : List ℕ → List ℕ
unfolding place
sorted [] = []
sorted (x ∷ xs) = place x (sorted xs)

-- The number of elements in front of the first that is not smaller.
unfoldable pub bisect_left : List ℕ → ℕ → ℕ
bisect_left [] n = 0
bisect_left (x ∷ xs) n = let rest = bisect_left xs n in if ltb x n then suc rest else 0

-- Each element is at most every later one.
abbrev pub IsSorted : List ℕ → Type 0
IsSorted [] = Unit
IsSorted (x ∷ xs) = All (λ y. x ≤ y) xs × IsSorted xs

length-place : (n : ℕ) (xs : List ℕ) → length (place n xs) ≡ suc (length xs)
unfolding place
length-place n [] = refl
length-place n (x ∷ xs) = ground (arith, length-place n xs)

pub length-sorted : (xs : List ℕ) → length (sorted xs) ≡ length xs
unfolding sorted
length-sorted [] = refl
length-sorted (x ∷ xs) = length-place x (sorted xs) ∙ ap suc (length-sorted xs)

place-Perm : (n : ℕ) (xs : List ℕ) → Perm (n ∷ xs) (place n xs)
unfolding place
place-Perm n [] = Perm.refl (n ∷ [])
place-Perm n (x ∷ xs) = elim (Bool-cases (leb n x)) [
  | inl e ↦ rw e (Perm.refl (n ∷ x ∷ xs))
  | inr e ↦ rw e (Perm.trans (Perm.swap x n xs) (Perm.cons x (place-Perm n xs)))
]

pub sorted-Perm : (xs : List ℕ) → Perm xs (sorted xs)
unfolding sorted
sorted-Perm [] = Perm.refl []
sorted-Perm (x ∷ xs) = Perm.trans (Perm.cons x (sorted-Perm xs)) (place-Perm x (sorted xs))

All-place {ℓ} : (P : ℕ → Type ℓ) (n : ℕ) (xs : List ℕ) → P n → All P xs → All P (place n xs)
unfolding place
All-place P n [] p h = (p, tt)
All-place P n (x ∷ xs) p h = elim (Bool-cases (leb n x)) [
  | inl e ↦ rw e (p, h)
  | inr e ↦ rw e (h.0, All-place P n xs p h.1)
]

place-IsSorted : (n : ℕ) (xs : List ℕ) → IsSorted xs → IsSorted (place n xs)
unfolding place
place-IsSorted n [] h = (tt, tt)
place-IsSorted n (x ∷ xs) h = elim (Bool-cases (leb n x)) [
  | inl e ↦ rw e ((leb→le n x e, All-map xs (λ y le. omega (arith, leb→le n x e)) h.0), h)
  | inr e ↦
      rw e (All-place (λ y. x ≤ y) n xs (omega (arith, leb→lt n x e)) h.0, place-IsSorted n xs h.1)
]

pub sorted-IsSorted : (xs : List ℕ) → IsSorted (sorted xs)
unfolding sorted
sorted-IsSorted [] = tt
sorted-IsSorted (x ∷ xs) = place-IsSorted x (sorted xs) (sorted-IsSorted xs)

pub member-place : (a n : ℕ) (xs : List ℕ) → member a (place n xs) ≡ member a (n ∷ xs)
unfolding place member
member-place a n [] = refl
member-place a n (x ∷ xs) = ground (arith, member-place a n xs)

pub member-sorted : (a : ℕ) (xs : List ℕ) → member a (sorted xs) ≡ member a xs
unfolding sorted member
member-sorted a [] = refl
member-sorted a (x ∷ xs) =
    member-place a x (sorted xs) ∙ ap (λ b. nat_key.same x a || b) (member-sorted a xs)

All-unplace {ℓ} : (P : ℕ → Type ℓ) (n : ℕ) (xs : List ℕ) → All P (place n xs) → P n × All P xs
unfolding place
All-unplace P n [] h = h
All-unplace P n (x ∷ xs) h = go (leb n x) h (All-unplace P n xs)
  where
    go :
        (b : Bool)
        → All P (if b then n ∷ x ∷ xs else x ∷ place n xs)
        → (All P (place n xs) → P n × All P xs)
        → P n × (P x × All P xs)
    go true h rest = h
    go false h rest = let (p, q) = rest h.1 in (p, (h.0, q))

-- What holds of all elements of the sorted list holds of all that were sorted.
pub All-sorted {ℓ} : (P : ℕ → Type ℓ) (xs : List ℕ) → All P (sorted xs) → All P xs
unfolding sorted
All-sorted P [] h = tt
All-sorted P (x ∷ xs) h = let (p, q) = All-unplace P x (sorted xs) h in (p, All-sorted P xs q)

-- In a sorted list `bisect_left` finds the least element that is not smaller, or the end.
pub bisect_left_lem :
    (xs : List ℕ) (u : ℕ)
    → IsSorted xs
    → ((v : ℕ) × (get_elem? xs (bisect_left xs u) ≡ some v)
        × (u ≤ v)
        × (member v xs ≡ true)
        × All (λ x. u ≤ x → v ≤ x) xs)
      ⊎ ((bisect_left xs u ≡ length xs) × All (λ x. x < u) xs)
unfolding bisect_left member
bisect_left_lem [] u h = inr (refl, tt)
bisect_left_lem (x ∷ xs) u h = elim (Bool-cases (ltb x u)) [
  | inl lt ↦ elim (bisect_left_lem xs u h.1) [
    | inl (v, found, le, mem, least) ↦
        inl (v, rw lt found, le, ground (arith, mem), (λ p. omega (arith, ltb→lt x u lt), least))
    | inr (e, below) ↦ inr (rw lt (ap suc e), (ltb→lt x u lt, below))
  ]
  | inr ge ↦ inl (
    x,
    rw ge refl,
    ltb→le x u ge,
    ground (arith, same_refl x),
    (λ p. omega arith, All-map xs (λ y le p. le) h.0),
  )
]
