-- ===== src/Storage/Miner/Limits.antt =====
-- How much content the table holds, and how much of it is listed.
use custom_scraper.Prelude.{
  All, Bool, Bool-cases, List, Option, String, [], ap, arith, false, if◌then◌else◌, inl, inr, leb,
  leb→lt, ltb, ltb→le, ltb→lt, nat_key, none, not, refl, select, some, string_key, sum_by-append,
  true, ℕ, ◌&&◌, ◌++◌, ◌+◌, ◌<◌, ◌==◌, ◌↔◌, ◌∷◌, ◌≡◌, ◌≢◌, ◌≤◌, ◌⊎◌,
}
use custom_scraper.Storage.Miner.{
  DataEntity, Row, SqliteMinerStorage, added_content_size, bytes_to_clear,
  clear_content_from_oldest, entity_of, label_text, list_data_entities, replace, replace_all,
  row_of, store_data_entities, take_rows, total,
}
use custom_scraper.Storage.Miner.Clearing.{clear_content_from_oldest_lem, total-select}

total-append : (xs ys : List Row) → total (xs ++ ys) ≡ total xs + total ys
total-append xs ys = sum_by-append (λ r. r.size) xs ys

total-replace_all :
    (es : List DataEntity) (rows : List Row)
    → total (replace_all es rows) ≤ total rows + added_content_size es
unfolding replace_all replace row_of
total-replace_all [] rows = omega arith
total-replace_all (e ∷ es) rows =
    let kept = total-select (λ r. not (string_key.same r.uri e.uri)) rows in
    let joined =
      total-append (select (λ r. not (string_key.same r.uri e.uri)) rows) (row_of e ∷ []) in
    omega (arith, total-replace_all es (replace (row_of e) rows))

bytes_to_clear-le : (limit added : ℕ) → added ≤ bytes_to_clear limit added
unfolding bytes_to_clear
bytes_to_clear-le limit added = ground arith

cleared_fits :
    (limit added : ℕ) (rows : List Row)
    → total rows ≤ limit
    → ((total rows + added ≤ limit) ⊎ (bytes_to_clear limit added ≤ total rows))
    → total (
          if ltb limit (total rows + added)
          then clear_content_from_oldest (bytes_to_clear limit added) rows
          else rows)
        + added
      ≤ limit
cleared_fits limit added rows le room = elim (Bool-cases (ltb limit (total rows + added))) [
  | inr fits ↦ rw fits (omega (arith, ltb→le limit (total rows + added) fits))
  | inl over ↦
      let more = ltb→lt limit (total rows + added) over in
      let least = bytes_to_clear-le limit added in
      rw over (elim room [
        | inl fits ↦ omega arith
        | inr enough ↦
            let removed =
              (clear_content_from_oldest_lem (bytes_to_clear limit added) rows).0 (omega arith)
                enough in
            omega (arith, removed.0)
      ])
]

-- A table inside its limit stays inside it when new content is stored, if that content fits as it is or if
-- the table holds at least as much as is to be cleared for it.
pub store_data_entities-total :
    (es : List DataEntity) (s s' : SqliteMinerStorage)
    → store_data_entities es s ≡ some s'
    → total s.rows ≤ s.database_max_content_size_bytes
    → ((total s.rows + added_content_size es ≤ s.database_max_content_size_bytes)
        ⊎ (bytes_to_clear s.database_max_content_size_bytes (added_content_size es) ≤ total s.rows))
    → total s'.rows ≤ s.database_max_content_size_bytes
unfolding store_data_entities bytes_to_clear
store_data_entities-total es s s' h le room =
    let limit = s.database_max_content_size_bytes in
    elim (Bool-cases (ltb limit (added_content_size es))) [
      | inl over ↦ ground arith
      | inr fits ↦
          let cleared : List Row =
            if ltb limit (total s.rows + added_content_size es)
            then clear_content_from_oldest (bytes_to_clear limit (added_content_size es)) s.rows
            else s.rows in
          let stored : s'.rows ≡ replace_all es cleared = ground arith in
          let same : total s'.rows ≡ total (replace_all es cleared) = ap total stored in
          omega (
            arith,
            cleared_fits limit (added_content_size es) s.rows le room,
            total-replace_all es cleared,
          )
    ]

-- New content is refused exactly when it alone is larger than the limit.
pub store_data_entities-none :
    (es : List DataEntity) (s : SqliteMinerStorage)
    → (store_data_entities es s ≡ none)
      ↔ (s.database_max_content_size_bytes < added_content_size es)
unfolding store_data_entities
store_data_entities-none es s = (λ e. ground arith, λ lt. ground arith)

take_rows_full :
    (limit running : ℕ) (rows : List Row)
    → leb limit running ≡ true
    → take_rows limit running rows ≡ []
unfolding take_rows
take_rows_full limit running [] h = refl
take_rows_full limit running (r ∷ rows) h = rw h refl

All-select {ℓ} :
    (P : Row → Type ℓ) (p : Row → Bool) (rows : List Row) → All P rows → All P (select p rows)
All-select P p [] h = tt
All-select P p (r ∷ rows) h = go (p r) (All-select P p rows h.1)
  where
    go :
        (b : Bool)
        → All P (select p rows)
        → All P (elim b [ true ↦ r ∷ select p rows | false ↦ select p rows ])
    go true rest = (h.0, rest)
    go false rest = rest

take_rows_bound :
    (limit m running : ℕ) (rows : List Row)
    → running < limit
    → All (λ r. r.size ≤ m) rows
    → running + added_content_size (take_rows limit running rows) < limit + m
unfolding take_rows entity_of
take_rows_bound limit m running [] h k = omega arith
take_rows_bound limit m running (r ∷ rows) h k = elim (Bool-cases (leb limit (running + r.size))) [
  | inl full ↦ let stops = take_rows_full limit (running + r.size) rows full in ground (arith, k.0)
  | inr more ↦ ground (
    arith,
    k.0,
    take_rows_bound limit m (running + r.size) rows (leb→lt limit (running + r.size) more) k.1,
  )
]

-- If no row is larger than `m`, the entities that are listed for a bucket are together smaller than the limit
-- plus `m`.
pub list_data_entities_bound :
    (limit m time_bucket_id source : ℕ) (label : Option String) (s : SqliteMinerStorage)
    → 0 < limit
    → All (λ r. r.size ≤ m) s.rows
    → added_content_size (list_data_entities limit time_bucket_id source label s) < limit + m
unfolding list_data_entities
list_data_entities_bound limit m time_bucket_id source label s pos h =
    let p : Row → Bool = λ r.
      (r.time_bucket_id == time_bucket_id)
      && ((r.source == source) && string_key.same r.label (label_text label)) in
    omega (
      arith,
      take_rows_bound limit m 0 (select p s.rows) pos (All-select (λ r. r.size ≤ m) p s.rows h),
    )

label_back :
    (label : Option String)
    → label ≢ some "NULL"
    → (if string_key.same (label_text label) "NULL" then none else some (label_text label)) ≡ label
unfolding label_text
label_back none h = refl
label_back (some label) h = elim (Bool-cases (string_key.same label "NULL")) [
  | inl same ↦ elim (h (ap some ((string_key.same_iff label "NULL").0 same))) [ ]
  | inr other ↦ rw other refl
]

-- An entity comes back from its row as it was, unless its label is the text that stands for no label.
pub entity_of-row_of : (e : DataEntity) → e.label ≢ some "NULL" → entity_of (row_of e) ≡ e
unfolding entity_of row_of label_text
entity_of-row_of e h = ap (λ l. record e { label = l }) (label_back e.label h)
