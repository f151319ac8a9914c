-- ===== src/Reddit/Checkpoints/Laws.antt =====
-- Reading back and listing the checkpoints of the workers.
use custom_scraper.Prelude.{
  All, All-map, Bool-cases, List, Option, String, [], arith, if◌then◌else◌, inl, inr, ltb, map,
  some, string_key, tests, ℕ, ◌∷◌, ◌≡◌, ◌≤◌,
}
use custom_scraper.Prelude.Dict.{lookup-insert}
use custom_scraper.Reddit.Checkpoints.{Checkpoints, WorkerCheckpoint, get, list_all, place, upsert}
use mathlib.Core.List.{Perm}
use mathlib.Core.List.Perm
use mathlib.Core.Option

-- After an upsert, the worker's checkpoint is the one that was written, and every other worker's is the
-- one it had.
pub get-upsert :
    (now : ℕ) (worker_id : String) (account_id sub post comment : Option String) (at : Option ℕ)
    (table : Checkpoints) (j : String)
    → get j (upsert now worker_id account_id sub post comment at table) ≡ (
        if string_key.same worker_id j
        then some (record {
          worker_id = worker_id;
          account_id = account_id;
          last_subreddit = sub;
          last_post_id = post;
          last_comment_id = comment;
          updated_at = Option.get_or at now;
        })
        else get j table)
unfolding get upsert
get-upsert now worker_id account_id sub post comment at table j = lookup-insert worker_id j _ table

-- From the newest to the oldest.
abbrev pub IsDescending : List WorkerCheckpoint → Type 0
IsDescending [] = Unit
IsDescending (r ∷ rows) = All (λ q. q.updated_at ≤ r.updated_at) rows × IsDescending rows

abbrev pub rows_of : Checkpoints → List WorkerCheckpoint
rows_of table = map (λ e. e.1) table

place-All :
    (n : ℕ) (row : WorkerCheckpoint) (rows : List WorkerCheckpoint)
    → row.updated_at ≤ n
    → All (λ q. q.updated_at ≤ n) rows
    → All (λ q. q.updated_at ≤ n) (place row rows)
unfolding place
place-All n row [] h k = (h, tt)
place-All n row (r ∷ rows) h k = ground (arith, place-All n row rows h k.1)

place-IsDescending :
    (row : WorkerCheckpoint) (rows : List WorkerCheckpoint)
    → IsDescending rows
    → IsDescending (place row rows)
unfolding place
place-IsDescending row [] h = (tt, tt)
place-IsDescending row (r ∷ rows) h = elim (Bool-cases (ltb row.updated_at r.updated_at)) [
  | inl older ↦
      rw older (place-All r.updated_at row rows (omega tests) h.0, place-IsDescending row rows h.1)
  | inr newer ↦
      let top : r.updated_at ≤ row.updated_at = omega tests in
      rw newer ((top, All-map rows (λ q le. omega arith) h.0), h)
]

place-perm :
    (row : WorkerCheckpoint) (rows : List WorkerCheckpoint) → Perm (place row rows) (row ∷ rows)
unfolding place
place-perm row [] = Perm.refl (row ∷ [])
place-perm row (r ∷ rows) = elim (Bool-cases (ltb row.updated_at r.updated_at)) [
  | inl older ↦ rw older (Perm.trans (Perm.cons r (place-perm row rows)) (Perm.swap row r rows))
  | inr newer ↦ rw newer (Perm.refl (row ∷ r ∷ rows))
]

-- The listing holds the rows of the table, each as often as the table does, from the newest to the oldest.
pub list_all_lem :
    (table : Checkpoints) → IsDescending (list_all table) × Perm (list_all table) (rows_of table)
unfolding list_all
list_all_lem [] = (tt, Perm.refl [])
list_all_lem ((k, row) ∷ table) =
    let (ordered, same_rows) = list_all_lem table in
    (
      place-IsDescending row (list_all table) ordered,
      Perm.trans (place-perm row (list_all table)) (Perm.cons row same_rows),
    )
