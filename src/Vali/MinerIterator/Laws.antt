-- ===== src/Vali/MinerIterator/Laws.antt =====
-- The order of the miners, and the change to a new list of them.
use custom_scraper.Prelude.{
  All, List, [], ap, arith, drop, get_elem?, get_elem?_lt, if◌then◌else◌, inl, inr, leb, length,
  nat_key, none, refl, some, suc, sym, take, zero, ℕ, ◌++◌, ◌+◌, ◌-◌, ◌<◌, ◌∙◌, ◌∷◌, ◌≡◌, ◌≤◌, ◌⊎◌,
}
use custom_scraper.Sorting.{
  All-sorted, IsSorted, bisect_left, bisect_left_lem, length-sorted, sorted, sorted-IsSorted,
}
use custom_scraper.Vali.MinerIterator.{MinerIterator, next, peek, set_miner_uids}
use mathlib.Core.Path.{subst}

-- The index stands inside the list.
abbrev pub IsValid : MinerIterator → Type 0
IsValid it = it.index < length it.miner_uids

-- The ids that `n` calls of `__next__` return.
unfoldable pub seen : ℕ → MinerIterator → List ℕ
seen zero it = []
seen (suc n) it = elim (next it) [ none ↦ [] | some (uid, it') ↦ uid ∷ seen n it' ]

next_valid :
    (it : MinerIterator)
    → IsValid it
    → (uid : ℕ) × (get_elem? it.miner_uids it.index ≡ some uid)
      × (next it
          ≡ some (
            uid,
            record it {
              index = if leb (length it.miner_uids) (it.index + 1) then 0 else it.index + 1;
            },
          ))
unfolding next
next_valid it h =
    let (uid, found) = get_elem?_lt it.miner_uids it.index h in (uid, found, rw (next, found) refl)

drop-get_elem? : (xs : List ℕ) (i u : ℕ) → get_elem? xs i ≡ some u → drop i xs ≡ u ∷ drop (suc i) xs
drop-get_elem? [] i u h = ground arith
drop-get_elem? (x ∷ xs) zero u h = ground arith
drop-get_elem? (x ∷ xs) (suc i) u h = drop-get_elem? xs i u h

drop_past : (n : ℕ) (xs : List ℕ) → n ≡ length xs → drop n xs ≡ []
drop_past zero [] e = refl
drop_past zero (x ∷ xs) e = ground arith
drop_past (suc n) [] e = refl
drop_past (suc n) (x ∷ xs) e = drop_past n xs (omega arith)

get_elem?-lt_length : (xs : List ℕ) (i v : ℕ) → get_elem? xs i ≡ some v → i < length xs
get_elem?-lt_length [] i v e = ground arith
get_elem?-lt_length (x ∷ xs) zero v e = omega arith
get_elem?-lt_length (x ∷ xs) (suc i) v e = omega (arith, get_elem?-lt_length xs i v e)

abbrev at : List ℕ → ℕ → MinerIterator
at uids i = record { miner_uids = uids; index = i }

length_cons :
    (xs : List ℕ) (n : ℕ) → length xs ≡ suc n → (x : ℕ) × (rest : List ℕ) × (xs ≡ x ∷ rest)
length_cons [] n e = ground arith
length_cons (x ∷ xs) n e = (x, xs, refl)

lt-split : (i n : ℕ) → i < n → (k : ℕ) × (i + suc k ≡ n)
lt-split i n h = (n - suc i, omega arith)

seen_inside :
    (n : ℕ) (uids : List ℕ) (i : ℕ)
    → i + 1 < length uids
    → (uid : ℕ) × (get_elem? uids i ≡ some uid)
      × (seen (suc n) (at uids i) ≡ uid ∷ seen n (at uids (suc i)))
unfolding seen
seen_inside n uids i h =
    let (uid, found, step) = next_valid (at uids i) (omega arith) in
    let index : (if leb (length uids) (i + 1) then 0 else i + 1) ≡ suc i = ground arith in
    (uid, found, rw (seen, step, index) refl)

seen_last :
    (n : ℕ) (uids : List ℕ) (i : ℕ)
    → i + 1 ≡ length uids
    → (uid : ℕ) × (get_elem? uids i ≡ some uid)
      × (seen (suc n) (at uids i) ≡ uid ∷ seen n (at uids 0))
unfolding seen
seen_last n uids i h =
    let (uid, found, step) = next_valid (at uids i) (omega arith) in
    let index : (if leb (length uids) (i + 1) then 0 else i + 1) ≡ 0 = ground arith in
    (uid, found, rw (seen, step, index) refl)

-- Up to the end of the list, the calls go through it.
seen_part :
    (n : ℕ) (uids : List ℕ) (i : ℕ)
    → i + n < length uids
    → seen n (at uids i) ≡ take n (drop i uids)
unfolding seen
seen_part zero uids i h = refl
seen_part (suc n) uids i h =
    let (uid, found, step) = seen_inside n uids i (omega arith) in
    step
    ∙ ap (λ us. uid ∷ us) (seen_part n uids (suc i) (omega arith))
    ∙ sym (ap (take (suc n)) (drop-get_elem? uids i uid found))

-- At the end of the list, the calls start again.
seen_round :
    (k n : ℕ) (uids : List ℕ) (i : ℕ)
    → i + suc k ≡ length uids
    → seen (suc k + n) (at uids i) ≡ drop i uids ++ seen n (at uids 0)
seen_round zero n uids i h =
    let (uid, found, step) = seen_last n uids i (omega arith) in
    let ended : drop (suc i) uids ≡ [] = drop_past (suc i) uids (omega arith) in
    rw (drop-get_elem? uids i uid found, ended) (ap (λ m. seen m (at uids i)) (omega arith) ∙ step)
seen_round (suc k) n uids i h =
    let (uid, found, step) = seen_inside (suc k + n) uids i (omega arith) in
    rw (drop-get_elem? uids i uid found) (
      ap (λ m. seen m (at uids i)) (omega arith)
      ∙ step
      ∙ ap (λ us. uid ∷ us) (seen_round k n uids (suc i) (omega arith)))

-- Started anywhere, as many calls as there are miners return each of them once: those from the index on,
-- and then those before it.
pub seen-length :
    (it : MinerIterator)
    → IsValid it
    → seen (length it.miner_uids) it ≡ drop it.index it.miner_uids ++ take it.index it.miner_uids
seen-length it h =
    let (k, e) = lt-split it.index (length it.miner_uids) h in
    ap (λ m. seen m it) (omega arith)
    ∙ seen_round k it.index it.miner_uids it.index e
    ∙ ap (λ us. drop it.index it.miner_uids ++ us)
        (seen_part it.index it.miner_uids 0 (omega arith))

-- A list that is not empty replaces the miners at any time: the new ones are
-- then kept in order, and the next miner is the first of them that is not before the old next one, or the first of all when there is none.
pub set_miner_uids-peek :
    (it : MinerIterator) (u w : ℕ) (ws : List ℕ)
    → peek it ≡ some u
    → (it' : MinerIterator) × (v : ℕ) × (set_miner_uids (w ∷ ws) it ≡ some it')
      × IsValid it'
      × (it'.miner_uids ≡ sorted (w ∷ ws))
      × (peek it' ≡ some v)
      × (((u ≤ v) × All (λ x. u ≤ x → v ≤ x) (w ∷ ws))
          ⊎ (All (λ x. x < u) (w ∷ ws) × All (λ x. v ≤ x) (w ∷ ws)))
unfolding peek set_miner_uids
set_miner_uids-peek it u w ws h =
    let uids : List ℕ = sorted (w ∷ ws) in
    elim (bisect_left_lem uids u (sorted-IsSorted (w ∷ ws))) [
      | inl (v, found, le, mem, least) ↦
          let inside = get_elem?-lt_length uids (bisect_left uids u) v found in
          let index : (if leb (length uids) (bisect_left uids u) then 0 else bisect_left uids u)
              ≡ bisect_left uids u =
            ground arith in
          (
            at uids (bisect_left uids u),
            v,
            rw (set_miner_uids, h, index) refl,
            inside,
            refl,
            found,
            inl (le, All-sorted (λ x. u ≤ x → v ≤ x) (w ∷ ws) least),
          )
      | inr (e, below) ↦
          let index : (if leb (length uids) (bisect_left uids u) then 0 else bisect_left uids u)
              ≡ 0 =
            ground arith in
          let (v, rest, split) = length_cons uids (length ws) (length-sorted (w ∷ ws)) in
          let least : All (λ x. v ≤ x) uids =
            subst (All (λ x. v ≤ x)) (sym split)
              (omega arith, (subst IsSorted split (sorted-IsSorted (w ∷ ws))).0) in
          (
            at uids 0,
            v,
            rw (set_miner_uids, h, index) refl,
            omega (arith, length-sorted (w ∷ ws)),
            refl,
            ap (λ us. get_elem? us 0) split,
            inr (All-sorted (λ x. x < u) (w ∷ ws) below, All-sorted (λ x. v ≤ x) (w ∷ ws) least),
          )
    ]

-- An empty list is accepted, and it ends the iterator: from then on neither a miner nor a new list gets
-- through, since each raises an IndexError.
pub set_miner_uids_empty :
    (it : MinerIterator) (u : ℕ) (uids : List ℕ)
    → peek it ≡ some u
    → (it' : MinerIterator) × (set_miner_uids [] it ≡ some it')
      × (next it' ≡ none)
      × (set_miner_uids uids it' ≡ none)
unfolding peek set_miner_uids next sorted bisect_left
set_miner_uids_empty it u uids h = (at [] 0, rw (set_miner_uids, h) refl, refl, refl)
