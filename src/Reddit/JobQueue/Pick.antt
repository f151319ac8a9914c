-- ===== src/Reddit/JobQueue/Pick.antt =====
-- The draw of `_weighted_pick_index` and the shares of the jobs.
use custom_scraper.Prelude.{
  Bool-cases, List, Option-cases, [], ap, arith, inl, inr, leb, length, map, none, refl, some, suc,
  sum_by, take, ℕ, ◌+◌, ◌<◌, ◌∙◌, ◌∷◌, ◌≡◌, ◌≤◌,
}
use custom_scraper.Reddit.JobQueue.{Job, pick_from, score, weighted_pick_index}
use native.Mathlib.Nat.{zero-add}

abbrev pub total : List ℕ → ℕ
total ws = sum_by (λ w. w) ws

pick_from_lem :
    (r idx upto : ℕ) (ws : List ℕ)
    → upto < r
    → r ≤ upto + total ws
    → (i : ℕ) × (pick_from r idx upto ws ≡ some (idx + i))
      × (i < length ws)
      × (upto + total (take i ws) < r)
      × (r ≤ upto + total (take (suc i) ws))
unfolding pick_from
pick_from_lem r idx upto [] h k = absurd (omega arith)
pick_from_lem r idx upto (w ∷ ws) h k = elim (Bool-cases (leb r (upto + w))) [
  | inl now ↦ (0, rw now (ap some (omega arith)), omega arith, omega arith, ground arith)
  | inr later ↦
      let (i, found, inside, above, below) =
        pick_from_lem r (idx + 1) (upto + w) ws (ground arith) (omega arith) in
      (suc i, rw later (found ∙ ap some (omega arith)), omega arith, omega arith, omega arith)
]

map-total : (now : ℕ) (js : List Job) → sum_by (score now) js ≡ total (map (score now) js)
map-total now [] = refl
map-total now (j ∷ js) = omega (arith, map-total now js)

length-map-score : (now : ℕ) (js : List Job) → length (map (score now) js) ≡ length js
length-map-score now [] = refl
length-map-score now (j ∷ js) = ap suc (length-map-score now js)

picked :
    (now r : ℕ) (j : Job) (js : List Job) (i : ℕ)
    → 0 < sum_by (score now) (j ∷ js)
    → pick_from r 0 0 (map (score now) (j ∷ js)) ≡ some i
    → weighted_pick_index now r (j ∷ js) ≡ some i
unfolding weighted_pick_index
picked now r j js i h found = ground arith

pick_from_lt :
    (r idx upto : ℕ) (ws : List ℕ) (i : ℕ) → pick_from r idx upto ws ≡ some i → i < idx + length ws
unfolding pick_from
pick_from_lt r idx upto [] i h = cc
pick_from_lt r idx upto (w ∷ ws) i h = ground (arith, pick_from_lt r (idx + 1) (upto + w) ws i)

-- For a draw above 0 and up to the sum of the scores, the index picked is the one whose score covers the
-- draw: the scores before it stay below the draw, and with its own they reach it.
pub weighted_pick_index_lem :
    (now r : ℕ) (js : List Job)
    → 0 < r
    → r ≤ total (map (score now) js)
    → (i : ℕ) × (weighted_pick_index now r js ≡ some i)
      × (i < length js)
      × (total (take i (map (score now) js)) < r)
      × (r ≤ total (take (suc i) (map (score now) js)))
weighted_pick_index_lem now r [] h k = absurd (omega arith)
weighted_pick_index_lem now r (j ∷ js) h k =
    let (i, found, inside, above, below) =
      pick_from_lem r 0 0 (map (score now) (j ∷ js)) h (omega arith) in
    (
      i,
      picked now r j js i (omega (arith, map-total now (j ∷ js))) (found ∙ ap some (zero-add i)),
      omega (arith, length-map-score now js),
      omega arith,
      omega arith,
    )

fallback_lt :
    (now r : ℕ) (j : Job) (js : List Job)
    → pick_from r 0 0 (map (score now) (j ∷ js)) ≡ none
    → (i : ℕ) × (weighted_pick_index now r (j ∷ js) ≡ some i) × (i < length (j ∷ js))
unfolding weighted_pick_index
fallback_lt now r j js h = elim (Bool-cases (leb (sum_by (score now) (j ∷ js)) 0)) [
  | inl zeros ↦ (0, ground arith, omega arith)
  | inr some_score ↦ (length js, ground arith, omega arith)
]

found_lt :
    (now r : ℕ) (j : Job) (js : List Job) (i : ℕ)
    → pick_from r 0 0 (map (score now) (j ∷ js)) ≡ some i
    → i < length (j ∷ js)
    → (k : ℕ) × (weighted_pick_index now r (j ∷ js) ≡ some k) × (k < length (j ∷ js))
unfolding weighted_pick_index
found_lt now r j js i h inside = elim (Bool-cases (leb (sum_by (score now) (j ∷ js)) 0)) [
  | inl zeros ↦ (0, ground arith, omega arith)
  | inr some_score ↦ (i, ground arith, inside)
]

-- Whatever the draw, a queue that is not empty gives an index inside it.
pub weighted_pick_index_lt :
    (now r : ℕ) (j : Job) (js : List Job)
    → (i : ℕ) × (weighted_pick_index now r (j ∷ js) ≡ some i) × (i < length (j ∷ js))
weighted_pick_index_lt now r j js =
    elim (Option-cases (pick_from r 0 0 (map (score now) (j ∷ js)))) [
      | inl nothing ↦ fallback_lt now r j js nothing
      | inr (i, found) ↦
          let inside : i < length (j ∷ js) = omega (
            arith,
            pick_from_lt r 0 0 (map (score now) (j ∷ js)) i found,
            length-map-score now (j ∷ js),
          ) in
          found_lt now r j js i found inside
    ]
