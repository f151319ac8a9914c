-- ===== src/Storage/Validator/Read.antt =====
-- `read_miner_index` of storage/validator/sqlite_memory_validator_storage.py, with the constructor of
-- `ScorableDataEntityBucket` of common/data_v2.py, which checks the sizes.
-- The share of a bucket is an exact quotient here and a float there. The time of the index is left out.
pub mod Laws
use Prim.Native.String.{count}
use custom_scraper.Prelude.{
  Bool, List, Option, String, [], false, if◌then◌else◌, ltb, nat_key, none, pair_key, select, some,
  string_key, sum_by, ℕ, ◌*◌, ◌/◌, ◌==◌, ◌∷◌,
}
use custom_scraper.Prelude.Dict.{Dict, lookup}
use custom_scraper.Storage.Labels.{AutoIncrementDict, get_by_id}
use custom_scraper.Storage.Validator.{RowKey, ValidatorStorage}
use mathlib.Core.Option

pub record ScorableDataEntityBucket : Type 0 where
  pub time_bucket_id : ℕ
  pub source : ℕ
  pub label : Option String
  pub size_bytes : ℕ
  pub scorable_bytes : ℕ

-- DATA_ENTITY_BUCKET_SIZE_LIMIT_BYTES
abbrev pub size_limit : ℕ
size_limit = 134217728

-- `label and len(label) > MAX_LABEL_LENGTH`
unfoldable pub label_too_long : Option String → Bool
label_too_long none = false
label_too_long (some label) = ltb 140 (count label)

-- `label.casefold() if label else None`
unfoldable pub stored_label : (String → String) → Option String → Option String
stored_label casefold none = none
stored_label casefold (some label) =
    if string_key.same label "" then none else some (casefold label)

-- The constructor; `none` is the ValueError.
unfoldable pub make_bucket :
    (String → String) → ℕ → ℕ → Option String → ℕ → ℕ → Option ScorableDataEntityBucket
unfolding label_too_long stored_label
make_bucket casefold time_bucket_id source label size_bytes scorable_bytes =
    if label_too_long label
    then none
    else if ltb size_limit size_bytes
    then none
    else if ltb size_limit scorable_bytes
    then none
    else if ltb size_bytes scorable_bytes
    then none
    else some (record {
      time_bucket_id = time_bucket_id;
      source = source;
      label = stored_label casefold label;
      size_bytes = size_bytes;
      scorable_bytes = scorable_bytes;
    })

-- `SUM(contentSizeBytes)` over the like buckets of all miners.
unfoldable pub bucket_total : ℕ × (ℕ × ℕ) → Dict RowKey ℕ → ℕ
bucket_total like rows = sum_by (λ row. if pair_key.same row.0.1 like then row.1 else 0) rows

-- `int(size * size * 1.0 / NULLIF(total, 0))`, and 0 for NULL.
unfoldable pub scorable : ℕ → ℕ → ℕ
scorable size sum = if sum == 0 then 0 else size * size / sum

-- The label of a row: `none` is the IndexError, and the label "NULL" is none.
unfoldable pub row_label : ℕ → AutoIncrementDict → Option (Option String)
row_label label_id labels =
    Option.map
      (λ value. elim value [
        | none ↦ none
        | some label ↦ if string_key.same label "NULL" then none else some label
      ])
      (get_by_id label_id labels)

unfoldable pub read_row :
    (String → String) → ValidatorStorage → RowKey × ℕ → Option ScorableDataEntityBucket
unfolding make_bucket bucket_total scorable row_label
read_row casefold s ((miner_id, (source, (label_id, t))), size) =
    Option.bind (row_label label_id s.label_dict) (λ label.
      make_bucket casefold t source label size
        (scorable size (bucket_total (source, (label_id, t)) s.rows)))

-- The loop over the rows of a miner.
unfoldable pub read_rows :
    (String → String)
    → ValidatorStorage
    → List (RowKey × ℕ)
    → Option (List ScorableDataEntityBucket)
unfolding read_row
read_rows casefold s [] = some []
read_rows casefold s (row ∷ rows) =
    Option.bind (read_row casefold s row)
      (λ b. Option.map (λ bs. b ∷ bs) (read_rows casefold s rows))

-- `missing` is the None of an unknown miner, and `failed` an error that was raised.
pub data Reading : Type 0 where
  missing failed : Reading
  index : List ScorableDataEntityBucket → Reading

unfoldable pub read_miner_index : (String → String) → String → ValidatorStorage → Reading
unfolding read_rows
read_miner_index casefold hotkey s = elim (lookup hotkey s.miners) [
  | none ↦ missing
  | some m ↦ elim (read_rows casefold s (select (λ row. row.0.0 == m.miner_id) s.rows)) [
    | none ↦ failed
    | some buckets ↦ index buckets
  ]
]
