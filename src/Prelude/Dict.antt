-- ===== src/Prelude/Dict.antt =====
-- Python's dicts and tables with a primary key, as association lists in insertion order.
use Prim.Native.Nat.{◌+◌}
use custom_scraper.Prelude.Lists.{length}
use custom_scraper.Prelude.Tests.{Key, if◌then◌else◌, is_some}
use mathlib.Core.List.{List, [], map, ◌++◌, ◌∷◌}
use mathlib.Core.Option.{Option, none, some}
use mathlib.Core.Path.{ap, refl, ◌∙◌, ◌≡◌}
use custom_scraper.Prelude.Members.{IsDistinct, member}
use native.Mathlib.Omega.{arith}
use mathlib.Core.Option

abbrev pub Dict {ℓ κ} : Type ℓ → Type κ → Type (ℓ ⊔ κ)
Dict K V = List (K × V)

module _ {ℓ κ} {K : Type ℓ} {V : Type κ} ⦃e : Key K⦄ where
  -- `d.get(k)`
  unfoldable pub lookup : K → Dict K V → Option V
  lookup k [] = none
  lookup k ((j, v) ∷ d) = if e.same j k then some v else lookup k d

  -- `d[k] = v`: an old key keeps its place, a new one goes to the end.
  unfoldable pub insert : K → V → Dict K V → Dict K V
  insert k v [] = (k, v) ∷ []
  insert k v ((j, w) ∷ d) =
      let rest = insert k v d in if e.same j k then (k, v) ∷ d else (j, w) ∷ rest

  -- `del d[k]`
  unfoldable pub remove : K → Dict K V → Dict K V
  remove k [] = []
  remove k ((j, w) ∷ d) = let rest = remove k d in if e.same j k then rest else (j, w) ∷ rest

  pub lookup-insert :
      (k j : K) (v : V) (d : Dict K V)
      → lookup j (insert k v d) ≡ (if e.same k j then some v else lookup j d)
  unfolding lookup insert
  lookup-insert k j v [] = refl
  lookup-insert k j v ((i, w) ∷ d) =
      ground (arith, e.same_iff k j, e.same_iff i k, e.same_iff i j, lookup-insert k j v d)

  pub lookup-remove :
      (k j : K) (d : Dict K V) → lookup j (remove k d) ≡ (if e.same k j then none else lookup j d)
  unfolding lookup remove
  lookup-remove k j [] = ground arith
  lookup-remove k j ((i, w) ∷ d) =
      ground (arith, e.same_iff k j, e.same_iff i k, e.same_iff i j, lookup-remove k j d)

  -- `UPDATE … SET … WHERE key = k`
  unfoldable pub modify : K → (V → V) → Dict K V → Dict K V
  modify k f [] = []
  modify k f ((j, w) ∷ d) = (j, if e.same j k then f w else w) ∷ modify k f d

  pub lookup-modify :
      (k j : K) (f : V → V) (d : Dict K V)
      → lookup j (modify k f d) ≡ (if e.same k j then Option.map f (lookup j d) else lookup j d)
  unfolding lookup modify
  lookup-modify k j f [] = ground arith
  lookup-modify k j f ((i, w) ∷ d) =
      ground (arith, e.same_iff k j, e.same_iff i k, e.same_iff i j, lookup-modify k j f d)

  -- No key stands in two rows.
  abbrev pub IsKeyed : Dict K V → Type κ
  IsKeyed [] = Unit
  IsKeyed ((k, v) ∷ d) = (lookup k d ≡ none) × IsKeyed d

  pub insert-IsKeyed : (k : K) (v : V) (d : Dict K V) → IsKeyed d → IsKeyed (insert k v d)
  unfolding lookup insert
  insert-IsKeyed k v [] h = (refl, tt)
  insert-IsKeyed k v ((j, w) ∷ d) h =
      ground
        (arith, e.same_iff j k, e.same_iff k j, lookup-insert k j v d, insert-IsKeyed k v d h.1)

  pub remove-IsKeyed : (k : K) (d : Dict K V) → IsKeyed d → IsKeyed (remove k d)
  unfolding lookup remove
  remove-IsKeyed k [] h = tt
  remove-IsKeyed k ((j, w) ∷ d) h =
      ground (arith, e.same_iff j k, e.same_iff k j, lookup-remove k j d, remove-IsKeyed k d h.1)

  pub modify-IsKeyed : (k : K) (f : V → V) (d : Dict K V) → IsKeyed d → IsKeyed (modify k f d)
  unfolding lookup modify
  modify-IsKeyed k f [] h = tt
  modify-IsKeyed k f ((j, w) ∷ d) h =
      ground
        (arith, e.same_iff j k, e.same_iff k j, lookup-modify k j f d, modify-IsKeyed k f d h.1)

  pub remove_absent : (k : K) (d : Dict K V) → lookup k d ≡ none → remove k d ≡ d
  unfolding lookup remove
  remove_absent k [] h = refl
  remove_absent k ((j, w) ∷ d) h = ground (arith, e.same_iff j k, remove_absent k d)

  pub length-remove :
      (k : K) (v : V) (d : Dict K V)
      → IsKeyed d
      → lookup k d ≡ some v
      → length (remove k d) + 1 ≡ length d
  unfolding lookup remove
  length-remove k v [] h p = ground arith
  length-remove k v ((j, w) ∷ d) h p =
      ground (arith, e.same_iff j k, remove_absent k d, length-remove k v d h.1)

  pub length-insert :
      (k : K) (v : V) (d : Dict K V)
      → length (insert k v d) ≡ (if is_some (lookup k d) then length d else length d + 1)
  unfolding lookup insert
  length-insert k v [] = ground arith
  length-insert k v ((j, w) ∷ d) = ground (arith, e.same_iff j k, length-insert k v d)

  pub lookup-append :
      (j : K) (d d' : Dict K V)
      → lookup j (d ++ d') ≡ elim (lookup j d) [ none ↦ lookup j d' | some v ↦ some v ]
  unfolding lookup
  lookup-append j [] d' = refl
  lookup-append j ((i, w) ∷ d) d' = ground (arith, lookup-append j d d')

  -- A row at the end keeps the table keyed where its key is new.
  pub append-IsKeyed :
      (k : K) (v : V) (d : Dict K V) → IsKeyed d → lookup k d ≡ none → IsKeyed (d ++ (k, v) ∷ [])
  unfolding lookup
  append-IsKeyed k v [] h n = (refl, tt)
  append-IsKeyed k v ((i, w) ∷ d) h n = ground (
    arith,
    e.same_iff i k,
    e.same_iff k i,
    lookup-append i d ((k, v) ∷ []),
    append-IsKeyed k v d h.1,
  )

  -- A key that was new is removed without a trace.
  pub remove-insert :
      (k : K) (v : V) (d : Dict K V) → lookup k d ≡ none → remove k (insert k v d) ≡ d
  unfolding lookup insert remove
  remove-insert k v [] h = ground (arith, e.same_iff k k)
  remove-insert k v ((j, w) ∷ d) h = ground (arith, e.same_iff j k, remove-insert k v d)

module _ {ℓ κ} {K : Type ℓ} {V : Type κ} ⦃e : Key K⦄ where
  pub member-keys : (k : K) (d : Dict K V) → member k (map (λ row. row.0) d) ≡ is_some (lookup k d)
  unfolding member lookup
  member-keys k [] = refl
  member-keys k ((j, v) ∷ d) = ground (arith, member-keys k d)

  pub keys-IsDistinct : (d : Dict K V) → IsKeyed d → IsDistinct (map (λ row. row.0) d)
  keys-IsDistinct [] h = tt
  keys-IsDistinct ((k, v) ∷ d) h = (member-keys k d ∙ ap is_some h.0, keys-IsDistinct d h.1)
