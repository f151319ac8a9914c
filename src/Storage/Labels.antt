-- ===== src/Storage/Labels.antt =====
-- `AutoIncrementDict` of storage/validator/sqlite_memory_validator_storage.py, which numbers the labels of
-- the validator's index. Its lock makes each call one step.
pub mod Ids
mod Tests
use custom_scraper.Prelude.{
  List, Option, String, [], get_elem?, length, nat_key, none, some, string_key, suc, without, zero,
  ℕ, ◌%◌, ◌++◌, ◌∷◌,
}
use custom_scraper.Prelude.Dict.{Dict, insert, lookup, remove}

pub record AutoIncrementDict : Type 0 where
  pub available_ids : List ℕ
  pub items : List (Option String)
  pub indexes : Dict String ℕ

unfoldable pub empty : AutoIncrementDict
empty = record { available_ids = []; items = []; indexes = [] }

-- `items[i] = v`
unfoldable pub set_at : ℕ → Option String → List (Option String) → List (Option String)
set_at i v [] = []
set_at zero v (x ∷ xs) = v ∷ xs
set_at (suc i) v (x ∷ xs) = x ∷ set_at i v xs

-- `available_ids.pop()` takes any element of the set: the one at `draw`, counted round.
unfoldable pub choose : ℕ → List ℕ → Option ℕ
choose draw ids = get_elem? ids (draw % length ids)

unfoldable pub get_or_insert : ℕ → String → AutoIncrementDict → ℕ × AutoIncrementDict
unfolding choose set_at
get_or_insert draw key d = elim (lookup key d.indexes) [
  | some key_id ↦ (key_id, d)
  | none ↦ elim (choose draw d.available_ids) [
    | some key_id ↦ (
      key_id,
      record {
        available_ids = without key_id d.available_ids;
        items = set_at key_id (some key) d.items;
        indexes = insert key key_id d.indexes;
      },
    )
    | none ↦ (
      length d.items,
      record d {
        items = d.items ++ some key ∷ [];
        indexes = insert key (length d.items) d.indexes;
      },
    )
  ]
]

-- `get_by_id`; `none` is the IndexError, `some none` the `None` that a deleted key leaves.
unfoldable pub get_by_id : ℕ → AutoIncrementDict → Option (Option String)
get_by_id key_id d = get_elem? d.items key_id

unfoldable pub delete_key : String → AutoIncrementDict → AutoIncrementDict
unfolding set_at
delete_key key d = elim (lookup key d.indexes) [
  | none ↦ d
  | some key_id ↦ record {
    available_ids = key_id ∷ without key_id d.available_ids;
    items = set_at key_id none d.items;
    indexes = remove key d.indexes;
  }
]
