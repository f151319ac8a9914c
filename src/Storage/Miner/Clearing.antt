-- ===== src/Storage/Miner/Clearing.antt =====
-- What `clear_content_from_oldest` removes.
use custom_scraper.Prelude.{
  All, All-map, Bool, Bool-cases, List, Option-cases, [], arith, inl, inr, leb, leb→le, leb→lt,
  nat_key, none, not, refl, select, some, string_key, ℕ, ◌+◌, ◌<◌, ◌∷◌, ◌≡◌, ◌≢◌, ◌≤◌,
}
use custom_scraper.Storage.Miner.{
  Row, by_datetime, clear_content_from_oldest, clear_until, place, total,
}

-- The content of the rows up to an instant.
abbrev up_to : ℕ → List Row → ℕ
up_to t rows = total (select (λ r. leb r.datetime t) rows)

pub total-select : (p : Row → Bool) (rows : List Row) → total (select p rows) ≤ total rows
total-select p [] = omega arith
total-select p (r ∷ rows) = ground (arith, total-select p rows)

total-split :
    (p : Row → Bool) (rows : List Row)
    → total (select (λ r. not (p r)) rows) + total (select p rows) ≡ total rows
total-split p [] = omega arith
total-split p (r ∷ rows) = ground (arith, total-split p rows)

total-select-place :
    (p : Row → Bool) (row : Row) (rows : List Row)
    → total (select p (place row rows)) ≡ total (select p (row ∷ rows))
unfolding place
total-select-place p row [] = refl
total-select-place p row (r ∷ rows) = ground (arith, total-select-place p row rows)

total-select-by_datetime :
    (p : Row → Bool) (rows : List Row) → total (select p (by_datetime rows)) ≡ total (select p rows)
unfolding by_datetime
total-select-by_datetime p [] = refl
total-select-by_datetime p (r ∷ rows) =
    ground (arith, total-select-place p r (by_datetime rows), total-select-by_datetime p rows)

total-place : (row : Row) (rows : List Row) → total (place row rows) ≡ row.size + total rows
unfolding place
total-place row [] = refl
total-place row (r ∷ rows) = ground (arith, total-place row rows)

total-by_datetime : (rows : List Row) → total (by_datetime rows) ≡ total rows
unfolding by_datetime
total-by_datetime [] = refl
total-by_datetime (r ∷ rows) =
    omega (arith, total-place r (by_datetime rows), total-by_datetime rows)

abbrev Newer : ℕ → Row → Type 0
Newer t r = t ≤ r.datetime

-- Each row is at most as new as every later one.
abbrev IsOrdered : List Row → Type 0
IsOrdered [] = Unit
IsOrdered (r ∷ rows) = All (Newer r.datetime) rows × IsOrdered rows

All-place {ℓ} :
    (P : Row → Type ℓ) (row : Row) (rows : List Row) → P row → All P rows → All P (place row rows)
unfolding place
All-place P row [] p h = (p, tt)
All-place P row (r ∷ rows) p h = elim (Bool-cases (leb row.datetime r.datetime)) [
  | inl e ↦ rw e (p, h)
  | inr e ↦ rw e (h.0, All-place P row rows p h.1)
]

place-IsOrdered : (row : Row) (rows : List Row) → IsOrdered rows → IsOrdered (place row rows)
unfolding place
place-IsOrdered row [] h = (tt, tt)
place-IsOrdered row (r ∷ rows) h = elim (Bool-cases (leb row.datetime r.datetime)) [
  | inl e ↦
      let le = leb→le row.datetime r.datetime e in
      rw e ((le, All-map rows (λ q newer. omega arith) h.0), h)
  | inr e ↦
      let lt = leb→lt row.datetime r.datetime e in
      rw e (All-place (Newer r.datetime) row rows (omega arith) h.0, place-IsOrdered row rows h.1)
]

by_datetime-IsOrdered : (rows : List Row) → IsOrdered (by_datetime rows)
unfolding by_datetime
by_datetime-IsOrdered [] = tt
by_datetime-IsOrdered (r ∷ rows) = place-IsOrdered r (by_datetime rows) (by_datetime-IsOrdered rows)

clear_until-Newer :
    (n running t d : ℕ) (rows : List Row)
    → clear_until n running rows ≡ some t
    → All (Newer d) rows
    → d ≤ t
unfolding clear_until
clear_until-Newer n running t d [] e h = ground arith
clear_until-Newer n running t d (r ∷ rows) e h =
    ground (arith, clear_until-Newer n (running + r.size) t d rows, h.0, h.1)

-- The rows up to the instant that is found have the content that was asked for.
clear_until-some :
    (n running t : ℕ) (rows : List Row)
    → IsOrdered rows
    → clear_until n running rows ≡ some t
    → n ≤ running + up_to t rows
unfolding clear_until
clear_until-some n running t [] h e = ground arith
clear_until-some n running t (r ∷ rows) h e = elim (Bool-cases (leb n (running + r.size))) [
  | inl enough ↦ ground arith
  | inr more ↦
      let found : clear_until n (running + r.size) rows ≡ some t = ground arith in
      let newer = clear_until-Newer n (running + r.size) t r.datetime rows found h.0 in
      ground (arith, clear_until-some n (running + r.size) t rows h.1 found)
]

clear_until-none :
    (n running : ℕ) (rows : List Row) → running + total rows < n → clear_until n running rows ≡ none
unfolding clear_until
clear_until-none n running [] h = refl
clear_until-none n running (r ∷ rows) h = ground (arith, clear_until-none n (running + r.size) rows)

clear_until_ends :
    (n running : ℕ) (rows : List Row)
    → running < n
    → n ≤ running + total rows
    → clear_until n running rows ≢ none
unfolding clear_until
clear_until_ends n running [] lt h e = omega arith
clear_until_ends n running (r ∷ rows) lt h e =
    ground (arith, clear_until_ends n (running + r.size) rows)

-- Clearing at least one byte and no more than there are removes at least that much content, and what is
-- removed is what was stored up to some instant. Asked to clear more than there is, it
-- removes nothing.
pub clear_content_from_oldest_lem :
    (n : ℕ) (rows : List Row)
    → (0 < n
        → n ≤ total rows
        → (total (clear_content_from_oldest n rows) + n ≤ total rows)
          × ((until : ℕ) × (clear_content_from_oldest n rows
                ≡ select (λ r. not (leb r.datetime until)) rows)))
      × (total rows < n → clear_content_from_oldest n rows ≡ rows)
unfolding clear_content_from_oldest
clear_content_from_oldest_lem n rows = (enough, short)
  where
    enough :
        0 < n
        → n ≤ total rows
        → (total (clear_content_from_oldest n rows) + n ≤ total rows)
          × ((until : ℕ) × (clear_content_from_oldest n rows
                ≡ select (λ r. not (leb r.datetime until)) rows))
    enough pos le = elim (Option-cases (clear_until n 0 (by_datetime rows))) [
      | inl ended ↦
          elim (clear_until_ends n 0 (by_datetime rows) pos (omega (arith, total-by_datetime rows))
            ended) [ ]
      | inr (until, found) ↦
          let held =
            clear_until-some n 0 until (by_datetime rows) (by_datetime-IsOrdered rows) found in
          let same = total-select-by_datetime (λ r. leb r.datetime until) rows in
          let split = total-split (λ r. leb r.datetime until) rows in
          rw (clear_content_from_oldest, found) (omega arith, (until, refl))
    ]

    short : total rows < n → clear_content_from_oldest n rows ≡ rows
    short lt =
        rw
          (
            clear_content_from_oldest,
            clear_until-none n 0 (by_datetime rows) (omega (arith, total-by_datetime rows)),
          )
          refl
