-- ===== src/Storage/Validator/Tests.antt =====
-- Tables of two miners.
-- A fold of the characters and the choice of the first free id, for the examples.
use custom_scraper.Prelude.{List, String, [], none, refl, some, string_key, ℕ, ◌∷◌, ◌≡◌}
use custom_scraper.Prelude.Dict.{insert, lookup, remove}
use custom_scraper.Storage.Labels.{AutoIncrementDict}
use custom_scraper.Storage.Validator.{
  CompressedMinerIndex, ValidatorStorage, bucket_claims, claims, init, label_value_parse_str,
  source_claims,
}
use custom_scraper.Storage.Validator.Contract.{
  Op, delete, held_spec, run, run_refines, run_spec, upsert,
}
use custom_scraper.Storage.Validator.Held.{held}

abbrev fold : String → String
fold label = label

abbrev first_id : AutoIncrementDict → ℕ
first_id d = 0

abbrev small_index : CompressedMinerIndex
small_index =
    (1, record { label = some "r/bittensor"; sizes = (500, 10) ∷ (501, 20) ∷ [] } ∷ [])
    ∷ (2, record { label = none; sizes = (500, 7) ∷ [] } ∷ [])
    ∷ []

abbrev large_index : CompressedMinerIndex
large_index =
    (1, record { label = some "r/bittensor"; sizes = (500, 30) ∷ (500, 99) ∷ [] } ∷ []) ∷ []

abbrev calls : List Op
calls =
    upsert 5 large_index "a"
    ∷ upsert 6 small_index "b"
    ∷ upsert 7 small_index "a"
    ∷ delete "b"
    ∷ upsert 8 large_index "b"
    ∷ []

run_refines_example :
    held (run fold first_id calls init) "a" 1 "r/bittensor" 500
    ≡ held_spec fold first_id (run_spec fold first_id calls []) "a" 1 "r/bittensor" 500
run_refines_example = run_refines fold first_id calls "a" 1 "r/bittensor" 500

claimed_first :
    held_spec fold first_id (run_spec fold first_id calls []) "b" 1 "r/bittensor" 500 ≡ some 30
unfolding run_spec lookup insert remove claims source_claims bucket_claims label_value_parse_str
claimed_first = refl

abbrev stored : ValidatorStorage
stored = record {
  miners = ("a", record { miner_id = 1; last_updated = 7 }) ∷ [];
  rows = ((1, (1, (0, 500))), 10) ∷ ((2, (1, (0, 500))), 30) ∷ [];
  label_dict = record {
    available_ids = [];
    indexes = ("r/bittensor", 0) ∷ [];
    items = some "r/bittensor" ∷ [];
  };
}
