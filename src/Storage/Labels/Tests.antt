-- ===== src/Storage/Labels/Tests.antt =====
-- Runs of the numbered labels.
use custom_scraper.Prelude.{String, nat_key, refl, some, string_key, without, ℕ, ◌≡◌}
use custom_scraper.Prelude.Dict.{insert, lookup, remove}
use custom_scraper.Storage.Labels.{AutoIncrementDict, delete_key, empty, get_by_id, get_or_insert}
use custom_scraper.Storage.Labels.Ids.{get_by_id-get_or_insert, inserted, start}

abbrev two_labels : AutoIncrementDict
two_labels = (get_or_insert 0 "r/b" (get_or_insert 0 "r/a" empty).1).1

-- The id of a deleted label is given to the next one.
id_again : (get_or_insert 3 "r/c" (delete_key "r/a" two_labels)).0 ≡ 0
unfolding get_or_insert delete_key empty lookup insert remove without
id_again = refl

get_by_id-get_or_insert_example :
    (get_by_id (get_or_insert 0 "r/c" two_labels).0 (get_or_insert 0 "r/c" two_labels).1
      ≡ some (some "r/c"))
    × ((j : String) (i : ℕ)
        → lookup j two_labels.indexes ≡ some i
        → get_by_id i (get_or_insert 0 "r/c" two_labels).1 ≡ some (some j))
get_by_id-get_or_insert_example =
    get_by_id-get_or_insert two_labels 0 "r/c" (inserted 0 "r/b" (inserted 0 "r/a" start))
