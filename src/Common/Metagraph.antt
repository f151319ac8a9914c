-- ===== src/Common/Metagraph.antt =====
-- Who mines and who validates: `is_miner`, `is_validator`, `get_miner_uids`, `get_validator_data` of common/utils.py.
-- A metagraph is the list of its neurons by uid, each with its hotkey, permit and stake. `none` is an IndexError.
use custom_scraper.Prelude.{
  Bool, List, Option, String, [], get_elem?, if◌then◌else◌, leb, not, string_key, sum_by, ℕ, ◌&&◌,
  ◌+◌, ◌∷◌,
}
use custom_scraper.Prelude.Dict.{Dict, insert}
use custom_scraper.Ratio.{Ratio, over}
use custom_scraper.Sorting.{sorted}
use mathlib.Core.Option

pub record Neuron : Type 0 where
  pub hotkey : String
  pub validator_permit : Bool
  pub stake : ℕ

abbrev pub Metagraph : Type 0
Metagraph = List Neuron

unfoldable pub validates : Neuron → ℕ → Bool
validates neuron vpermit_rao_limit = neuron.validator_permit && leb vpermit_rao_limit neuron.stake

unfoldable pub is_validator : ℕ → Metagraph → ℕ → Option Bool
unfolding validates
is_validator uid metagraph vpermit_rao_limit =
    Option.map (λ neuron. validates neuron vpermit_rao_limit) (get_elem? metagraph uid)

unfoldable pub is_miner : ℕ → Metagraph → ℕ → Option Bool
unfolding is_validator
is_miner uid metagraph vpermit_rao_limit =
    Option.map not (is_validator uid metagraph vpermit_rao_limit)

-- The list that is sorted, from the uid `uid` on.
unfoldable pub miners_from : ℕ → Metagraph → ℕ → List ℕ
unfolding validates
miners_from uid [] vpermit_rao_limit = []
miners_from uid (neuron ∷ neurons) vpermit_rao_limit =
    let rest = miners_from (uid + 1) neurons vpermit_rao_limit in
    if validates neuron vpermit_rao_limit then rest else uid ∷ rest

unfoldable pub get_miner_uids : Metagraph → ℕ → List ℕ
unfolding miners_from
get_miner_uids metagraph vpermit_rao_limit = sorted (miners_from 0 metagraph vpermit_rao_limit)

unfoldable pub total_stake : Metagraph → ℕ → ℕ
unfolding validates
total_stake metagraph vpermit_rao_limit =
    sum_by (λ neuron. if validates neuron vpermit_rao_limit then neuron.stake else 0) metagraph

-- `percent_stake` by hotkey; the last neuron of a hotkey counts.
unfoldable pub shares_from : ℕ → Metagraph → ℕ → Dict String Ratio → Dict String Ratio
unfolding validates
shares_from total [] vpermit_rao_limit d = d
shares_from total (neuron ∷ neurons) vpermit_rao_limit d =
    shares_from total neurons vpermit_rao_limit (
      if validates neuron vpermit_rao_limit
      then insert neuron.hotkey (over neuron.stake total) d
      else d)

unfoldable pub get_validator_data : Metagraph → ℕ → Dict String Ratio
unfolding total_stake shares_from
get_validator_data metagraph vpermit_rao_limit =
    shares_from (total_stake metagraph vpermit_rao_limit) metagraph vpermit_rao_limit []
