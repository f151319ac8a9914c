-- ===== src/Prelude/Lists.antt =====
-- Lists measured and indexed by native numbers, under the library's names.
use Prim.Native.Nat.{ℕ, zero, suc, ◌+◌, ◌<◌}
use mathlib.Core.Path.{ap, ◌≡◌, refl}
use mathlib.Core.Logic.{◌≢◌}
use mathlib.Core.List.{List, [], ◌∷◌, ◌++◌, map}
use mathlib.Core.Bool.{Bool, true, false}
use mathlib.Core.Option.{Option, none, none-ne-some, some, some-injective}
use mathlib.Core.Path.{subst}
use native.Mathlib.Omega.{arith}

module _ {ℓ} {A : Type ℓ} where
  abbrev pub length : List A → ℕ
  length [] = 0
  length (x ∷ xs) = suc (length xs)

  abbrev pub get_elem? : List A → ℕ → Option A
  get_elem? [] i = none
  get_elem? (x ∷ xs) zero = some x
  get_elem? (x ∷ xs) (suc i) = get_elem? xs i

  abbrev pub take : ℕ → List A → List A
  take zero xs = []
  take (suc n) [] = []
  take (suc n) (x ∷ xs) = x ∷ take n xs

  abbrev pub drop : ℕ → List A → List A
  drop zero xs = xs
  drop (suc n) [] = []
  drop (suc n) (x ∷ xs) = drop n xs

  -- `[x for x in xs if keep(x)]`
  abbrev pub select : (A → Bool) → List A → List A
  select keep [] = []
  select keep (x ∷ xs) =
      let rest = select keep xs in elim (keep x) [ true ↦ x ∷ rest | false ↦ rest ]

  abbrev pub All {κ} : (A → Type κ) → List A → Type κ
  All P [] = Unit
  All P (x ∷ xs) = P x × All P xs

  -- The sum of a measure over a list.
  abbrev pub sum_by : (A → ℕ) → List A → ℕ
  sum_by f [] = 0
  sum_by f (x ∷ xs) = f x + sum_by f xs

module _ {ℓ} {A : Type ℓ} where
  pub length-append : (xs ys : List A) → length (xs ++ ys) ≡ length xs + length ys
  length-append [] ys = omega arith
  length-append (x ∷ xs) ys = omega (arith, length-append xs ys)

  pub take-append-drop : (n : ℕ) (xs : List A) → take n xs ++ drop n xs ≡ xs
  take-append-drop zero xs = refl
  take-append-drop (suc n) [] = refl
  take-append-drop (suc n) (x ∷ xs) = rw (take-append-drop n xs)

  pub get_elem?_lt : (xs : List A) (i : ℕ) → i < length xs → (x : A) × (get_elem? xs i ≡ some x)
  get_elem?_lt [] i h = elim h [ ]
  get_elem?_lt (x ∷ xs) zero h = (x, refl)
  get_elem?_lt (x ∷ xs) (suc i) h = get_elem?_lt xs i (omega arith)

  pub sum_by-append : (f : A → ℕ) (xs ys : List A) → sum_by f (xs ++ ys) ≡ sum_by f xs + sum_by f ys
  sum_by-append f [] ys = omega arith
  sum_by-append f (x ∷ xs) ys = omega (arith, sum_by-append f xs ys)

module _ {ℓ κ μ} {A : Type ℓ} {P : A → Type κ} {Q : A → Type μ} where
  pub All-map : (xs : List A) → ((x : A) → P x → Q x) → All P xs → All Q xs
  All-map [] f h = tt
  All-map (x ∷ xs) f h = (f x h.0, All-map xs f h.1)

module _ {ℓ κ} {A : Type ℓ} (P : A → Type κ) where
  pub All-append : (xs ys : List A) → All P xs → All P ys → All P (xs ++ ys)
  All-append [] ys h k = k
  All-append (x ∷ xs) ys h k = (h.0, All-append xs ys h.1 k)

module _ {ℓ} {A : Type ℓ} where
  pub length-map {κ} : {B : Type κ} (xs : List A) (f : A → B) → length (map f xs) ≡ length xs
  length-map [] f = refl
  length-map (x ∷ xs) f = omega (arith, length-map xs f)

module _ {ℓ} {A : Type ℓ} where
  -- `xs[i] = v`, for an `i` that is inside.
  unfoldable pub update_at : ℕ → A → List A → List A
  update_at i v [] = []
  update_at zero v (x ∷ xs) = v ∷ xs
  update_at (suc i) v (x ∷ xs) = x ∷ update_at i v xs

  unfoldable pub replicate : ℕ → A → List A
  replicate zero v = []
  replicate (suc n) v = v ∷ replicate n v

  pub length-update_at : (i : ℕ) (v : A) (xs : List A) → length (update_at i v xs) ≡ length xs
  unfolding update_at
  length-update_at i v [] = refl
  length-update_at zero v (x ∷ xs) = refl
  length-update_at (suc i) v (x ∷ xs) = omega (arith, length-update_at i v xs)

  pub length-replicate : (n : ℕ) (v : A) → length (replicate n v) ≡ n
  unfolding replicate
  length-replicate zero v = refl
  length-replicate (suc n) v = omega (arith, length-replicate n v)

module _ {ℓ κ} {A : Type ℓ} (P : A → Type κ) where
  pub All-update_at : (i : ℕ) (v : A) (xs : List A) → P v → All P xs → All P (update_at i v xs)
  unfolding update_at
  All-update_at i v [] p h = h
  All-update_at zero v (x ∷ xs) p h = (p, h.1)
  All-update_at (suc i) v (x ∷ xs) p h = (h.0, All-update_at i v xs p h.1)

  pub All-replicate : (n : ℕ) (v : A) → P v → All P (replicate n v)
  unfolding replicate
  All-replicate zero v p = tt
  All-replicate (suc n) v p = (p, All-replicate n v p)

  pub All-get_elem? : (xs : List A) (i : ℕ) (x : A) → get_elem? xs i ≡ some x → All P xs → P x
  All-get_elem? [] i x e h = elim (none-ne-some x e) [ ]
  All-get_elem? (y ∷ ys) zero x e h = subst P (some-injective y x e) h.0
  All-get_elem? (y ∷ ys) (suc i) x e h = All-get_elem? ys i x e h.1

module _ {ℓ} {A : Type ℓ} where
  pub get_elem?_inside : (xs : List A) (i : ℕ) (x : A) → get_elem? xs i ≡ some x → i < length xs
  get_elem?_inside [] i x e = elim (none-ne-some x e) [ ]
  get_elem?_inside (y ∷ ys) zero x e = omega arith
  get_elem?_inside (y ∷ ys) (suc i) x e = omega (arith, get_elem?_inside ys i x e)

  pub get_elem?-append :
      (xs ys : List A) (i : ℕ) → i < length xs → get_elem? (xs ++ ys) i ≡ get_elem? xs i
  get_elem?-append [] ys i h = elim h [ ]
  get_elem?-append (x ∷ xs) ys zero h = refl
  get_elem?-append (x ∷ xs) ys (suc i) h = get_elem?-append xs ys i (omega (arith, h))

  pub get_elem?-update_at :
      (xs : List A) (i : ℕ) (v : A) → i < length xs → get_elem? (update_at i v xs) i ≡ some v
  unfolding update_at
  get_elem?-update_at [] i v h = elim h [ ]
  get_elem?-update_at (x ∷ xs) zero v h = refl
  get_elem?-update_at (x ∷ xs) (suc i) v h = get_elem?-update_at xs i v (omega (arith, h))

  pub get_elem?-update_at_other :
      (xs : List A) (i j : ℕ) (v : A) → i ≢ j → get_elem? (update_at i v xs) j ≡ get_elem? xs j
  unfolding update_at
  get_elem?-update_at_other [] i j v h = refl
  get_elem?-update_at_other (x ∷ xs) zero zero v h = elim (h refl) [ ]
  get_elem?-update_at_other (x ∷ xs) zero (suc j) v h = refl
  get_elem?-update_at_other (x ∷ xs) (suc i) zero v h = refl
  get_elem?-update_at_other (x ∷ xs) (suc i) (suc j) v h =
      get_elem?-update_at_other xs i j v (λ e. h (ap suc e))
