-- ===== src/Vali/MinerIterator.antt =====
-- vali_utils/miner_iterator.py: the cyclic iterator over the ids of the miners. Its lock makes each call a step.
pub mod Laws
mod Tests
use custom_scraper.Prelude.{
  List, Option, [], get_elem?, if◌then◌else◌, leb, length, none, some, ℕ, ◌%◌, ◌+◌, ◌∷◌,
}
use custom_scraper.Sorting.{bisect_left, sorted}

pub record MinerIterator : Type 0 where
  pub miner_uids : List ℕ
  pub index : ℕ

-- `__init__`; `draw` is what `random.randint` returns, which raises when there is no id.
unfoldable pub init : ℕ → List ℕ → Option MinerIterator
init draw [] = none
init draw (u ∷ us) =
    some (record { miner_uids = sorted (u ∷ us); index = draw % length (sorted (u ∷ us)) })

-- `__next__`; `none` is the IndexError.
unfoldable pub next : MinerIterator → Option (ℕ × MinerIterator)
next it = elim (get_elem? it.miner_uids it.index) [
  | none ↦ none
  | some uid ↦ some (
    uid,
    record it { index = if leb (length it.miner_uids) (it.index + 1) then 0 else it.index + 1 },
  )
]

unfoldable pub peek : MinerIterator → Option ℕ
peek it = get_elem? it.miner_uids it.index

-- `set_miner_uids`; `none` is the IndexError of `self.miner_uids[self.index]`.
unfoldable pub set_miner_uids : List ℕ → MinerIterator → Option MinerIterator
set_miner_uids uids it = elim (get_elem? it.miner_uids it.index) [
  | none ↦ none
  | some next_uid ↦
      let found = bisect_left (sorted uids) next_uid in
      some (record {
        miner_uids = sorted uids;
        index = if leb (length (sorted uids)) found then 0 else found;
      })
]
