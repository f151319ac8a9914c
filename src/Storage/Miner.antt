-- ===== src/Storage/Miner.antt =====
-- storage/miner/sqlite_miner_storage.py: the table of scraped entities and its limit of size. Instants are
-- numbers on one clock, contents are bytes; a method that runs in one transaction or under the clearing lock is one step.
pub mod Clearing
pub mod Limits
mod Tests
use custom_scraper.Prelude.{
  List, Option, String, [], if◌then◌else◌, leb, ltb, nat_key, none, not, select, some, string_key,
  sum_by, ℕ, ◌&&◌, ◌++◌, ◌+◌, ◌/◌, ◌==◌, ◌∷◌,
}

-- `DataEntity`, and with the label as a text its row; the primary key is `uri`.
pub record DataEntity : Type 0 where
  pub uri : String
  pub datetime : ℕ
  pub time_bucket_id : ℕ
  pub source : ℕ
  pub label : Option String
  pub content : List ℕ
  pub content_size_bytes : ℕ

pub record Row : Type 0 where
  pub uri : String
  pub datetime : ℕ
  pub time_bucket_id : ℕ
  pub source : ℕ
  pub label : String
  pub content : List ℕ
  pub size : ℕ

pub record SqliteMinerStorage : Type 0 where
  pub database_max_content_size_bytes : ℕ
  pub rows : List Row

-- `"NULL" if label is None else label.value`
unfoldable pub label_text : Option String → String
label_text none = "NULL"
label_text (some label) = label

unfoldable pub row_of : DataEntity → Row
unfolding label_text
row_of e = record {
  uri = e.uri;
  datetime = e.datetime;
  time_bucket_id = e.time_bucket_id;
  source = e.source;
  label = label_text e.label;
  content = e.content;
  size = e.content_size_bytes;
}

-- `DataSource(row["source"])` and the rest of the entity, from a row.
unfoldable pub entity_of : Row → DataEntity
entity_of r = record {
  uri = r.uri;
  datetime = r.datetime;
  time_bucket_id = r.time_bucket_id;
  source = r.source;
  label = if string_key.same r.label "NULL" then none else some r.label;
  content = r.content;
  content_size_bytes = r.size;
}

-- `SELECT SUM(contentSizeBytes) FROM DataEntity`
abbrev pub total : List Row → ℕ
total rows = sum_by (λ r. r.size) rows

abbrev pub added_content_size : List DataEntity → ℕ
added_content_size es = sum_by (λ e. e.content_size_bytes) es

-- `REPLACE INTO`: a row of the same key goes.
unfoldable pub replace : Row → List Row → List Row
replace row rows = select (λ r. not (string_key.same r.uri row.uri)) rows ++ row ∷ []

-- `executemany`
unfoldable pub replace_all : List DataEntity → List Row → List Row
unfolding replace row_of
replace_all [] rows = rows
replace_all (e ∷ es) rows = replace_all es (replace (row_of e) rows)

-- `ORDER BY datetime ASC`
unfoldable pub place : Row → List Row → List Row
place row [] = row ∷ []
place row (r ∷ rows) =
    let rest = place row rows in if leb row.datetime r.datetime then row ∷ r ∷ rows else r ∷ rest

unfoldable pub by_datetime : List Row → List Row
unfolding place
by_datetime [] = []
by_datetime (r ∷ rows) = place r (by_datetime rows)

-- The loop of `clear_content_from_oldest`: the instant up to which rows are deleted. The DELETE runs on the
-- cursor of the loop and ends it.
unfoldable pub clear_until : ℕ → ℕ → List Row → Option ℕ
clear_until content_bytes_to_clear running_bytes [] = none
clear_until content_bytes_to_clear running_bytes (r ∷ rows) =
    let rest = clear_until content_bytes_to_clear (running_bytes + r.size) rows in
    if leb content_bytes_to_clear (running_bytes + r.size) then some r.datetime else rest

-- `clear_content_from_oldest`
unfoldable pub clear_content_from_oldest : ℕ → List Row → List Row
unfolding clear_until by_datetime
clear_content_from_oldest content_bytes_to_clear rows =
    elim (clear_until content_bytes_to_clear 0 (by_datetime rows)) [
      | none ↦ rows
      | some until ↦ select (λ r. not (leb r.datetime until)) rows
    ]

-- How much is cleared when the new content does not fit: a tenth of the limit, or the size of the new content
-- when that is larger.
unfoldable pub bytes_to_clear : ℕ → ℕ → ℕ
bytes_to_clear limit added = if ltb added (limit / 10) then limit / 10 else added

-- `store_data_entities`; `none` is the ValueError.
unfoldable pub store_data_entities :
    List DataEntity → SqliteMinerStorage → Option SqliteMinerStorage
unfolding clear_content_from_oldest bytes_to_clear replace_all
store_data_entities es s =
    let limit = s.database_max_content_size_bytes in
    let added = added_content_size es in
    let cleared =
      if ltb limit (total s.rows + added)
      then clear_content_from_oldest (bytes_to_clear limit added) s.rows
      else s.rows in
    if ltb limit added then none else some (record s { rows = replace_all es cleared })

-- The loop over the rows of a bucket, which stops once the limit is reached. The order of the rows, which the
-- query leaves open, is that of the table.
unfoldable pub take_rows : ℕ → ℕ → List Row → List DataEntity
unfolding entity_of
take_rows limit running_size [] = []
take_rows limit running_size (r ∷ rows) =
    let rest = take_rows limit (running_size + r.size) rows in
    if leb limit running_size then [] else entity_of r ∷ rest

-- `list_data_entities_in_data_entity_bucket`; the first argument is DATA_ENTITY_BUCKET_SIZE_LIMIT_BYTES.
unfoldable pub list_data_entities : ℕ → ℕ → ℕ → Option String → SqliteMinerStorage → List DataEntity
unfolding take_rows label_text
list_data_entities limit time_bucket_id source label s = take_rows limit 0 (
    select
      (λ r.
        (r.time_bucket_id == time_bucket_id)
        && ((r.source == source) && string_key.same r.label (label_text label)))
      s.rows)
