-- ===== src/Storage/Miner/Tests.antt =====
-- Runs of the miner's storage.
use custom_scraper.Prelude.{
  String, [], arith, inr, leb, nat_key, not, refl, select, some, string_key, ℕ, ◌+◌, ◌<◌, ◌∷◌, ◌≡◌,
  ◌≤◌,
}
use custom_scraper.Storage.Miner.{
  DataEntity, SqliteMinerStorage, bytes_to_clear, clear_content_from_oldest, row_of,
  store_data_entities, total,
}
use custom_scraper.Storage.Miner.Clearing.{clear_content_from_oldest_lem}
use custom_scraper.Storage.Miner.Limits.{store_data_entities-total}
use mathlib.Core.Option

abbrev entity : String → ℕ → ℕ → DataEntity
entity uri datetime size = record {
  uri = uri;
  datetime = datetime;
  time_bucket_id = 7;
  source = 1;
  label = some "r/a";
  content = 116 ∷ [];
  content_size_bytes = size;
}

abbrev stored : ℕ → SqliteMinerStorage
stored size = record {
  database_max_content_size_bytes = 10;
  rows = row_of (entity "a" 3 size) ∷ row_of (entity "b" 2 1) ∷ [];
}

-- The old row goes to make room.
store_data_entities_clears :
    store_data_entities (entity "c" 4 5 ∷ []) (stored 5)
    ≡ some (record (stored 5) { rows = row_of (entity "c" 4 5) ∷ [] })
unfolding store_data_entities row_of
store_data_entities_clears = refl

-- Nothing is cleared when less is stored than is to be cleared: 16 bytes stand in a table of at most 10.
store_data_entities_exceeds :
    Option.map (λ s. total s.rows) (store_data_entities (entity "c" 4 9 ∷ []) (stored 6)) ≡ some 16
unfolding store_data_entities row_of
store_data_entities_exceeds = refl

clear_content_from_oldest_lem_example :
    (0 < 2
      → 2 ≤ total (stored 5).rows
      → (total (clear_content_from_oldest 2 (stored 5).rows) + 2 ≤ total (stored 5).rows)
        × ((until : ℕ) × (clear_content_from_oldest 2 (stored 5).rows
              ≡ select (λ r. not (leb r.datetime until)) (stored 5).rows)))
    × (total (stored 5).rows < 2 → clear_content_from_oldest 2 (stored 5).rows ≡ (stored 5).rows)
clear_content_from_oldest_lem_example = clear_content_from_oldest_lem 2 (stored 5).rows

store_data_entities-total_example :
    total (row_of (entity "c" 4 5) ∷ []) ≤ (stored 5).database_max_content_size_bytes
unfolding row_of bytes_to_clear
store_data_entities-total_example =
    store_data_entities-total (entity "c" 4 5 ∷ []) (stored 5)
      (record (stored 5) { rows = row_of (entity "c" 4 5) ∷ [] }) store_data_entities_clears
      (omega arith) (inr (omega arith))
