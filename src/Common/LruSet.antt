-- ===== src/Common/LruSet.antt =====
-- `LRUSet` of common/utils.py. The ordered dict is the list of its keys, the oldest first.
pub mod Laws
mod Tests
use custom_scraper.Prelude.{
  Bool, List, String, [], drop, if◌then◌else◌, length, ltb, member, not, string_key, without, ℕ,
  ◌++◌, ◌∷◌,
}

pub record LruSet : Type 0 where
  pub capacity : ℕ
  pub keys : List String

unfoldable pub init : ℕ → LruSet
init capacity = record { capacity = capacity; keys = [] }

unfoldable pub contains : LruSet → String → Bool
contains s key = member key s.keys

-- The keys when `key` was added: an old key moves to the end, and the oldest one goes when there are too many.
unfoldable pub keys_after : String → ℕ → List String → List String
keys_after key capacity keys =
    let longer = keys ++ key ∷ [] in
    if member key keys
    then without key keys ++ key ∷ []
    else if ltb capacity (length longer)
    then drop 1 longer
    else longer

-- `add`; the answer is whether the key is new.
unfoldable pub add : String → LruSet → Bool × LruSet
unfolding keys_after
add key s = (not (member key s.keys), record s { keys = keys_after key s.capacity s.keys })
