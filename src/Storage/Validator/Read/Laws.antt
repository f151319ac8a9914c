-- ===== src/Storage/Validator/Read/Laws.antt =====
-- When reading an index succeeds, and how much of a bucket counts.
use custom_scraper.Prelude.{Option, String, false, nat_key, pair_key, some, string_key, ℕ, ◌≡◌, ◌≤◌}
use custom_scraper.Prelude.Dict.{Dict}
use custom_scraper.Storage.Validator.{RowKey, ValidatorStorage}
use custom_scraper.Storage.Validator.Read.{bucket_total, label_too_long, row_label, size_limit}
use mathlib.Core.Option

-- The rows that the sums of a table count.
abbrev IsCounted : Dict RowKey ℕ → RowKey × ℕ → Type 0
IsCounted rows row = row.1 ≤ bucket_total row.0.1 rows

-- A row can be read: its label is numbered and short, and its size is inside the limit.
abbrev pub IsReadable : ValidatorStorage → RowKey × ℕ → Type 0
IsReadable s ((_, (source, (label_id, t))), size) =
    (label : Option String) × (row_label label_id s.label_dict ≡ some label)
    × (label_too_long label ≡ false)
    × (size ≤ size_limit)
