-- ===== src/Storage/Validator.antt =====
-- storage/validator/sqlite_memory_validator_storage.py: the tables in which a validator keeps the indexes of the
-- miners. The calls come one after another. Each statement commits by itself; a statement for each million
-- rows stores what one statement would. A new row of `Miner` gets the id that SQLite gives a rowid.
pub mod Numbering
pub mod Held
pub mod Contract
pub mod Read
mod Tests
use custom_scraper.Prelude.{
  List, Option, String, [], if◌then◌else◌, is_some, max, nat_key, none, not, pair_key, select, some,
  string_key, ℕ, ◌++◌, ◌+◌, ◌==◌, ◌∷◌,
}
use custom_scraper.Prelude.Dict.{Dict, insert, lookup, modify, remove}
use custom_scraper.Storage.Labels.{AutoIncrementDict, empty as no_labels, get_or_insert}
use mathlib.Core.Option

-- A row of `Miner` behind its hotkey. The credibility is stored and never read back.
pub record Miner : Type 0 where
  pub miner_id : ℕ
  pub last_updated : ℕ

-- The primary key of `MinerIndex`: minerId, source, labelId, timeBucketId.
abbrev pub RowKey : Type 0
RowKey = ℕ × (ℕ × (ℕ × ℕ))

pub record ValidatorStorage : Type 0 where
  pub miners : Dict String Miner
  pub rows : Dict RowKey ℕ
  pub label_dict : AutoIncrementDict

unfoldable pub init : ValidatorStorage
init = record { miners = []; rows = []; label_dict = no_labels }

-- `CompressedEntityBucket`, with `zip(time_bucket_ids, sizes_bytes)`.
pub record CompressedEntityBucket : Type 0 where
  pub label : Option String
  pub sizes : List (ℕ × ℕ)

-- `CompressedMinerIndex.sources`
abbrev pub CompressedMinerIndex : Type 0
CompressedMinerIndex = Dict ℕ (List CompressedEntityBucket)

-- The largest id of the table.
unfoldable pub max_id : Dict String Miner → ℕ
max_id [] = 0
max_id ((_, m) ∷ ms) = max m.miner_id (max_id ms)

-- `_upsert_miner`: a new row gets the id after the largest one of the table.
unfoldable pub upsert_miner : ℕ → String → Dict String Miner → ℕ × Dict String Miner
unfolding max_id
upsert_miner now hotkey miners = elim (lookup hotkey miners) [
  | some m ↦ (m.miner_id, modify hotkey (λ r. record r { last_updated = now }) miners)
  | none ↦ (
    max_id miners + 1,
    insert hotkey (record { miner_id = max_id miners + 1; last_updated = now }) miners,
  )
]

-- What the index asks to store: for each source and bucket, the label and the sizes by time bucket.
pub record Claim : Type 0 where
  pub source : ℕ
  pub label : Option String
  pub time_bucket_id : ℕ
  pub size : ℕ

unfoldable pub bucket_claims : ℕ → Option String → List (ℕ × ℕ) → List Claim
bucket_claims source label [] = []
bucket_claims source label ((time_bucket_id, size) ∷ sizes) =
    record { source = source; label = label; time_bucket_id = time_bucket_id; size = size }
    ∷ bucket_claims source label sizes

unfoldable pub source_claims : ℕ → List CompressedEntityBucket → List Claim
unfolding bucket_claims
source_claims source [] = []
source_claims source (b ∷ bs) = bucket_claims source b.label b.sizes ++ source_claims source bs

unfoldable pub claims : CompressedMinerIndex → List Claim
unfolding source_claims
claims [] = []
claims ((source, buckets) ∷ index) = source_claims source buckets ++ claims index

-- `DELETE FROM MinerIndex WHERE minerId = ?`
unfoldable pub delete_rows : ℕ → Dict RowKey ℕ → Dict RowKey ℕ
delete_rows miner_id rows = select (λ row. not (row.0.0 == miner_id)) rows

-- `INSERT OR IGNORE`: a key that is there keeps its row.
unfoldable pub insert_or_ignore : RowKey → ℕ → Dict RowKey ℕ → Dict RowKey ℕ
insert_or_ignore k size rows = if is_some (lookup k rows) then rows else insert k size rows

-- `executemany`
unfoldable pub insert_rows : List (RowKey × ℕ) → Dict RowKey ℕ → Dict RowKey ℕ
unfolding insert_or_ignore
insert_rows [] rows = rows
insert_rows ((k, size) ∷ values) rows = insert_rows values (insert_or_ignore k size rows)

-- `casefold` is `str.casefold`, which raises for no label, and `draw` picks the id that `set.pop` gives.
module _ (casefold : String → String) (draw : AutoIncrementDict → ℕ) where
  -- `_label_value_parse_str`
  unfoldable pub label_value_parse_str : Option String → String
  label_value_parse_str none = "NULL"
  label_value_parse_str (some label) = casefold label

  -- The loop that makes the values: the keys, with the labels numbered.
  unfoldable pub number_labels :
      ℕ → List Claim → AutoIncrementDict → List (RowKey × ℕ) × AutoIncrementDict
  unfolding label_value_parse_str
  number_labels miner_id [] labels = ([], labels)
  number_labels miner_id (c ∷ cs) labels =
      let (label_id, labels') =
        get_or_insert (draw labels) (label_value_parse_str c.label) labels in
      let (rest, labels'') = number_labels miner_id cs labels' in
      (((miner_id, (c.source, (label_id, c.time_bucket_id))), c.size) ∷ rest, labels'')

  -- `upsert_compressed_miner_index`
  unfoldable pub upsert_compressed_miner_index :
      ℕ → CompressedMinerIndex → String → ValidatorStorage → ValidatorStorage
  unfolding upsert_miner number_labels insert_rows delete_rows claims
  upsert_compressed_miner_index now index hotkey s =
      let (miner_id, miners) = upsert_miner now hotkey s.miners in
      let (values, labels) = number_labels miner_id (claims index) s.label_dict in
      record {
        miners = miners;
        rows = insert_rows values (delete_rows miner_id s.rows);
        label_dict = labels;
      }

-- `_delete_miner_index`, and then the row of the miner.
unfoldable pub delete_miner : String → ValidatorStorage → ValidatorStorage
unfolding delete_rows
delete_miner hotkey s = record s {
  miners = remove hotkey s.miners;
  rows = elim (lookup hotkey s.miners) [ none ↦ s.rows | some m ↦ delete_rows m.miner_id s.rows ];
}

unfoldable pub read_miner_last_updated : String → ValidatorStorage → Option ℕ
read_miner_last_updated hotkey s = Option.map (λ m. m.last_updated) (lookup hotkey s.miners)
