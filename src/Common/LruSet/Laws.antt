-- ===== src/Common/LruSet/Laws.antt =====
-- A set that forgets the oldest keys.
use custom_scraper.Common.LruSet.{LruSet, add, init, keys_after}
use custom_scraper.Prelude.{
  Bool, IsDistinct, List, String, [], arith, drop, false, if◌then◌else◌, length, length-append, ltb,
  ltb→le, member, member-without, refl, same_refl, string_key, true, without, without-IsDistinct, ℕ,
  ◌++◌, ◌+◌, ◌||◌, ◌∷◌, ◌≡◌, ◌≤◌,
}

unfoldable pub add_all : List String → LruSet → LruSet
add_all [] s = s
add_all (k ∷ ks) s = add_all ks (add k s).1

-- The size stays inside the capacity, and no key is there twice.
abbrev pub IsBounded : LruSet → Type 0
IsBounded s = (length s.keys ≤ s.capacity) × IsDistinct s.keys

member-append :
    (a : String) (xs ys : List String) → member a (xs ++ ys) ≡ (member a xs || member a ys)
unfolding member
member-append a [] ys = ground arith
member-append a (x ∷ xs) ys = ground (arith, member-append a xs ys)

IsDistinct-snoc :
    (a : String) (xs : List String)
    → member a xs ≡ false
    → IsDistinct xs
    → IsDistinct (xs ++ a ∷ [])
unfolding member
IsDistinct-snoc a [] h k = (refl, tt)
IsDistinct-snoc a (x ∷ xs) h k = ground (
  arith,
  string_key.same_iff x a,
  string_key.same_iff a x,
  member-append x xs (a ∷ []),
  IsDistinct-snoc a xs,
)

length-without :
    (a : String) (xs : List String)
    → IsDistinct xs
    → member a xs ≡ true
    → length (without a xs) + 1 ≡ length xs
unfolding member without
length-without a [] h m = ground arith
length-without a (x ∷ xs) h m =
    ground (arith, string_key.same_iff x a, without_absent x xs h.0, length-without a xs h.1)
  where
    without_absent : (a : String) (xs : List String) → member a xs ≡ false → without a xs ≡ xs
    without_absent a [] h = refl
    without_absent a (x ∷ xs) h = ground (arith, without_absent a xs)

drop_oldest : (xs : List String) → IsDistinct xs → IsDistinct (drop 1 xs)
drop_oldest [] h = tt
drop_oldest (x ∷ xs) h = h.1

length-drop_oldest : (xs : List String) (n : ℕ) → length xs ≤ n + 1 → length (drop 1 xs) ≤ n
length-drop_oldest [] n h = omega arith
length-drop_oldest (x ∷ xs) n h = omega (arith, h)

-- The size and the keys, of a list.
abbrev IsSmall : ℕ → List String → Type 0
IsSmall capacity keys = (length keys ≤ capacity) × IsDistinct keys

longer-IsSmall :
    (capacity : ℕ) (longer : List String)
    → length longer ≤ capacity + 1
    → IsDistinct longer
    → IsSmall capacity (if ltb capacity (length longer) then drop 1 longer else longer)
longer-IsSmall capacity longer le d = go (ltb capacity (length longer)) refl
  where
    go :
        (b : Bool)
        → ltb capacity (length longer) ≡ b
        → IsSmall capacity (if b then drop 1 longer else longer)
    go true e = (length-drop_oldest longer capacity le, drop_oldest longer d)
    go false e = (ltb→le capacity (length longer) e, d)

keys_after-IsSmall :
    (key : String) (capacity : ℕ) (keys : List String)
    → IsSmall capacity keys
    → IsSmall capacity (keys_after key capacity keys)
unfolding keys_after
keys_after-IsSmall key capacity keys (le, distinct) = go (member key keys) refl
  where
    go :
        (b : Bool)
        → member key keys ≡ b
        → IsSmall capacity (
            if b
            then without key keys ++ key ∷ []
            else if ltb capacity (length (keys ++ key ∷ []))
            then drop 1 (keys ++ key ∷ [])
            else keys ++ key ∷ [])
    go true m = (
      omega (
        arith,
        length-append (without key keys) (key ∷ []),
        length-without key keys distinct m,
        le,
      ),
      IsDistinct-snoc key (without key keys)
          (ground (arith, member-without key key keys, same_refl key))
          (without-IsDistinct key keys distinct),
    )
    go false m =
        longer-IsSmall capacity (keys ++ key ∷ [])
          (omega (arith, length-append keys (key ∷ []), le)) (IsDistinct-snoc key keys m distinct)

add-IsBounded : (key : String) (s : LruSet) → IsBounded s → IsBounded (add key s).1
unfolding add
add-IsBounded key s h = keys_after-IsSmall key s.capacity s.keys h

add_from-IsBounded : (ks : List String) (s : LruSet) → IsBounded s → IsBounded (add_all ks s)
unfolding add_all
add_from-IsBounded [] s h = h
add_from-IsBounded (k ∷ ks) s h = add_from-IsBounded ks (add k s).1 (add-IsBounded k s h)

-- After any additions the set has at most its capacity of keys, none twice.
pub add_all-IsBounded : (capacity : ℕ) (ks : List String) → IsBounded (add_all ks (init capacity))
unfolding init
add_all-IsBounded capacity ks = add_from-IsBounded ks (init capacity) (omega arith, tt)
