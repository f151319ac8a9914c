-- ===== src/Storage/Labels/Ids.antt =====
-- Keys and ids of `AutoIncrementDict` over any sequence of calls.
use custom_scraper.Prelude.{
  List, Option, Option-cases, String, [], arith, get_elem?, if◌then◌else◌, inl, inr, length, member,
  member-without, nat_key, none, refl, same_refl, some, string_key, suc, true, zero, ℕ, ◌%◌, ◌++◌,
  ◌<◌, ◌==◌, ◌∷◌, ◌≡◌,
}
use custom_scraper.Prelude.Dict.{lookup, lookup-insert, lookup-remove}
use custom_scraper.Storage.Labels.{
  AutoIncrementDict, choose, delete_key, empty, get_by_id, get_or_insert, set_at,
}
use mathlib.Core.Option

-- Each key stands at its id, and at each free id stands none.
pub record IsConsistent (d : AutoIncrementDict) : Type 0 where
  pub named :
      (key : String) (i : ℕ) → lookup key d.indexes ≡ some i → get_elem? d.items i ≡ some (some key)
  pub free : (i : ℕ) → member i d.available_ids ≡ true → get_elem? d.items i ≡ some none

get_elem?-set_at :
    (i n : ℕ) (v : Option String) (xs : List (Option String))
    → get_elem? (set_at i v xs) n
      ≡ (if i == n then Option.map (λ _. v) (get_elem? xs n) else get_elem? xs n)
unfolding set_at
get_elem?-set_at i n v [] = ground arith
get_elem?-set_at zero zero v (x ∷ xs) = refl
get_elem?-set_at zero (suc n) v (x ∷ xs) = ground arith
get_elem?-set_at (suc i) zero v (x ∷ xs) = ground arith
get_elem?-set_at (suc i) (suc n) v (x ∷ xs) = ground (arith, get_elem?-set_at i n v xs)

get_elem?-member : (xs : List ℕ) (n i : ℕ) → get_elem? xs n ≡ some i → member i xs ≡ true
unfolding member
get_elem?-member [] n i h = ground arith
get_elem?-member (x ∷ xs) zero i h = ground arith
get_elem?-member (x ∷ xs) (suc n) i h = ground (arith, get_elem?-member xs n i h)

get_elem?-append :
    (xs : List (Option String)) (v : Option String) (n : ℕ)
    → get_elem? (xs ++ v ∷ []) n ≡ (if n == length xs then some v else get_elem? xs n)
get_elem?-append [] v zero = refl
get_elem?-append [] v (suc n) = ground arith
get_elem?-append (x ∷ xs) v zero = ground arith
get_elem?-append (x ∷ xs) v (suc n) = ground (arith, get_elem?-append xs v n)

get_elem?-below :
    (xs : List (Option String)) (n : ℕ) (v : Option String)
    → get_elem? xs n ≡ some v
    → n < length xs
get_elem?-below [] n v h = ground arith
get_elem?-below (x ∷ xs) zero v h = omega arith
get_elem?-below (x ∷ xs) (suc n) v h = omega (arith, get_elem?-below xs n v h)

pub empty-IsConsistent : IsConsistent empty
unfolding empty lookup member
empty-IsConsistent = record { named = λ key i h. ground arith; free = λ i h. ground arith }

module _ (d : AutoIncrementDict) (c : IsConsistent d) where
  pub taken :
      (draw : ℕ) (key : String)
      → IsConsistent (get_or_insert draw key d).1
        × (get_by_id (get_or_insert draw key d).0 (get_or_insert draw key d).1 ≡ some (some key))
  unfolding get_or_insert get_by_id choose
  taken draw key = elim (Option-cases (lookup key d.indexes)) [
    | inr (i, present) ↦ rw (get_or_insert, present) (c, c.named key i present)
    | inl absent ↦ elim (Option-cases (get_elem? d.available_ids (draw % length d.available_ids))) [
      | inr (i, chosen) ↦
          let vacant = c.free i (get_elem?-member d.available_ids _ i chosen) in
          rw (get_or_insert, absent, chosen)
            (
              record {
                named = λ j n h. ground (
                  arith,
                  lookup-insert key j i d.indexes,
                  string_key.same_iff key j,
                  c.named j n,
                  get_elem?-set_at i n (some key) d.items,
                );
                free = λ n h. ground (
                  arith,
                  member-without i n d.available_ids,
                  c.free n,
                  get_elem?-set_at i n (some key) d.items,
                );
              },
              ground (arith, get_elem?-set_at i i (some key) d.items),
            )
      | inl nothing ↦
          rw (get_or_insert, absent, nothing)
            (
              record {
                named = λ j n h. ground (
                  arith,
                  lookup-insert key j (length d.items) d.indexes,
                  string_key.same_iff key j,
                  c.named j n,
                  get_elem?-append d.items (some key) n,
                  get_elem?-below d.items n (some j),
                );
                free = λ n h. ground (
                  arith,
                  c.free n h,
                  get_elem?-append d.items (some key) n,
                  get_elem?-below d.items n none,
                );
              },
              ground (arith, get_elem?-append d.items (some key) (length d.items)),
            )
    ]
  ]

  given_back : (key : String) → IsConsistent (delete_key key d)
  unfolding delete_key member
  given_back key = elim (Option-cases (lookup key d.indexes)) [
    | inl absent ↦ rw (delete_key, absent) c
    | inr (i, present) ↦
        rw (delete_key, present)
          (record {
            named = λ j n h. ground (
              arith,
              lookup-remove key j d.indexes,
              string_key.same_iff key j,
              c.named j n,
              c.named key i present,
              get_elem?-set_at i n none d.items,
            );
            free = λ n h. ground (
              arith,
              member-without i n d.available_ids,
              c.free n,
              c.named key i present,
              get_elem?-set_at i n none d.items,
            );
          })
  ]

  pub kept :
      (draw : ℕ) (key j : String) (i : ℕ)
      → lookup j d.indexes ≡ some i
      → lookup j (get_or_insert draw key d).1.indexes ≡ some i
  unfolding get_or_insert choose
  kept draw key j i h = elim (Option-cases (lookup key d.indexes)) [
    | inr (n, present) ↦ rw (get_or_insert, present) h
    | inl absent ↦ elim (Option-cases (get_elem? d.available_ids (draw % length d.available_ids))) [
      | inr (n, chosen) ↦
          rw (get_or_insert, absent, chosen)
            (ground (arith, lookup-insert key j n d.indexes, string_key.same_iff key j))
      | inl nothing ↦
          rw (get_or_insert, absent, nothing)
            (ground
              (arith, lookup-insert key j (length d.items) d.indexes, string_key.same_iff key j))
    ]
  ]

  pub lookup-get_or_insert :
      (draw : ℕ) (key : String)
      → lookup key (get_or_insert draw key d).1.indexes ≡ some (get_or_insert draw key d).0
  unfolding get_or_insert choose
  lookup-get_or_insert draw key = elim (Option-cases (lookup key d.indexes)) [
    | inr (n, present) ↦ rw (get_or_insert, present) present
    | inl absent ↦ elim (Option-cases (get_elem? d.available_ids (draw % length d.available_ids))) [
      | inr (n, chosen) ↦
          rw (get_or_insert, absent, chosen)
            (ground (arith, lookup-insert key key n d.indexes, same_refl key))
      | inl nothing ↦
          rw (get_or_insert, absent, nothing)
            (ground (arith, lookup-insert key key (length d.items) d.indexes, same_refl key))
    ]
  ]

-- The dictionaries that calls make out of an empty one.
pub data Reach : AutoIncrementDict → Type 0 where
  start : Reach empty
  inserted :
      {d : AutoIncrementDict} (draw : ℕ) (key : String)
      → Reach d
      → Reach (get_or_insert draw key d).1
  deleted : {d : AutoIncrementDict} (key : String) → Reach d → Reach (delete_key key d)

pub Reach-IsConsistent : {d : AutoIncrementDict} → Reach d → IsConsistent d
Reach-IsConsistent start = empty-IsConsistent
Reach-IsConsistent (inserted {d} draw key r) = (taken d (Reach-IsConsistent r) draw key).0
Reach-IsConsistent (deleted {d} key r) = given_back d (Reach-IsConsistent r) key

-- After any calls, whichever free ids they take, the id that `get_or_insert` returns stands for its key, and the
-- id of every key that was there already still stands for that key.
pub get_by_id-get_or_insert :
    (d : AutoIncrementDict) (draw : ℕ) (key : String)
    → Reach d
    → (get_by_id (get_or_insert draw key d).0 (get_or_insert draw key d).1 ≡ some (some key))
      × ((j : String) (i : ℕ)
          → lookup j d.indexes ≡ some i
          → get_by_id i (get_or_insert draw key d).1 ≡ some (some j))
unfolding get_by_id
get_by_id-get_or_insert d draw key r =
    let c = Reach-IsConsistent r in
    let (after, given) = taken d c draw key in
    (given, λ j i h. after.named j i (kept d c draw key j i h))
